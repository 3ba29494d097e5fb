-- ===== src/Tests/Lines.antt =====
-- The text handler at a concrete chain of calls.
use gklog.Base.{ℕ, List, [], ◌∷◌, ◌++◌, ◌≡◌, refl}
use gklog.Text.{Bytes, codes}
use gklog.Text.Parts.{join}
use gklog.Slog.Steps.{Step, bind, enter}
use gklog.Slog.{kept, string_attr, level_string}
use gklog.TextHandler.{TextHandler, new_text_handler, line_of, write_attr, wrap_groups}
use gklog.TextHandler.Fields.{fields}
use gklog.TextHandler.Laws.{derive_all, front_of, line_of-derive_all}
use gklog.Tests.World.{entry}

abbrev chain : List Step
chain = bind (string_attr (codes "a") (codes "1") ∷ []) ∷ enter (codes "rpc") ∷ enter [] ∷ []

abbrev noon : ℕ → Bytes
noon t = codes "noon"

line_of-derive_all_example :
    line_of noon (derive_all (new_text_handler (codes "svc")) chain) entry
    ≡ front_of noon (codes "svc") entry ++ (fields [] chain entry.attrs ++ 10 ∷ [])
line_of-derive_all_example = line_of-derive_all noon (codes "svc") chain entry

abbrev grouped : TextHandler
grouped = record {
  label = [];
  attrs = wrap_groups (codes "rpc" ∷ codes "in" ∷ []) (string_attr (codes "a") (codes "1") ∷ []);
  groups = codes "rpc" ∷ [];
}

line_runs :
    line_of noon grouped entry ≡ codes "noon ERROR boom rpc.in.a=1 rpc.span_id=x rpc.n=1" ++ 10 ∷ []
unfolding line_of wrap_groups level_string write_attr kept join
line_runs = refl
