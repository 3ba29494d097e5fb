-- ===== src/Metadata.antt =====
-- google.golang.org/grpc/metadata, which is no part of this repository, as an interface: `get` and
-- `set` are MD.Get and MD.Set, `incoming` is FromIncomingContext and `outgoing` NewOutgoingContext.
-- Its documentation says that a key is converted to lower case before it is used.
use gklog.Base.{List, [], ◌∷◌, Option, true, ◌≡◌, if◌then◌else◌, all}
use gklog.Text.{Bytes, same}
use gklog.Text.Case.{is_ascii, to_lower_ascii}
use gklog.Ctx.{Ctx}

pub record MdOps (MD : Type 0) : Type 0 where
  pub empty : MD
  pub get : MD → Bytes → List Bytes
  pub set : MD → Bytes → List Bytes → MD
  pub incoming : Ctx → Option MD
  pub outgoing : Ctx → MD → Ctx

pub record IsMd {MD : Type 0} (ops : MdOps MD) : Type 0 where
  pub get-empty : (k : Bytes) → ops.get ops.empty k ≡ []
  pub get-set :
      (md : MD) (j k : Bytes) (v : Bytes)
      → all is_ascii j ≡ true
      → all is_ascii k ≡ true
      → ops.get (ops.set md j (v ∷ [])) k
        ≡ (if same (to_lower_ascii j) (to_lower_ascii k) then v ∷ [] else ops.get md k)
