-- ===== src/NetHttp.antt =====
-- net/http.Header: a map from canonical keys to lists of values, as an association list. `none`
-- is the nil map.
use gklog.Base.{
  ℕ, List, [], ◌∷◌, Option, none, some, Bool, true, ◌&&◌, ◌||◌, ◌≡◌, refl, arith, leb, ◌==◌,
  if◌then◌else◌, all, any,
}
use gklog.Text.{Bytes, codes, same, same_iff}
use gklog.Text.Case.{upper_byte, lower_byte}

abbrev is_token_byte : ℕ → Bool
is_token_byte c =
    (leb b'0' c && leb c b'9')
    || ((leb b'a' c && leb c b'z')
        || ((leb b'A' c && leb c b'Z') || any (λ d. c == d) (codes "!#$%&'*+-.^_`|~")))

-- Upper case at the front and behind a dash, lower case elsewhere.
capitals : Bool → Bytes → Bytes
capitals upper [] = []
capitals upper (c ∷ s) =
    let d = if upper then upper_byte c else lower_byte c in d ∷ capitals (d == b'-') s

-- textproto.CanonicalMIMEHeaderKey
unfoldable pub canonical : Bytes → Bytes
unfolding capitals
canonical key = if all is_token_byte key then capitals true key else key

abbrev pub Entries : Type 0
Entries = List (Bytes × List Bytes)

abbrev pub Header : Type 0
Header = Option Entries

values : Bytes → Entries → List Bytes
values key [] = []
values key ((j, vs) ∷ entries) = if same j key then vs else values key entries

put : Bytes → List Bytes → Entries → Entries
put key vs [] = (key, vs) ∷ []
put key vs ((j, ws) ∷ entries) =
    if same j key then (key, vs) ∷ entries else (j, ws) ∷ put key vs entries

abbrev first_of : List Bytes → Bytes
first_of [] = []
first_of (v ∷ vs) = v

-- Header.Get
unfoldable pub get : Entries → Bytes → Bytes
unfolding values
get h key = first_of (values (canonical key) h)

-- Header.Get, which reads a nil map as an empty one.
abbrev pub header_get : Header → Bytes → Bytes
header_get none key = []
header_get (some h) key = get h key

-- Header.Set on a map that is not nil.
unfoldable pub set : Entries → Bytes → Bytes → Entries
unfolding put
set h key value = put (canonical key) (value ∷ []) h

values-put :
    (j k : Bytes) (vs : List Bytes) (h : Entries)
    → values k (put j vs h) ≡ (if same j k then vs else values k h)
unfolding values put
values-put j k vs [] = refl
values-put j k vs ((i, ws) ∷ h) =
    ground (arith, values-put j k vs h, same_iff i j, same_iff i k, same_iff j k)

-- What is read after a write.
pub get-set :
    (h : Entries) (j k v : Bytes)
    → get (set h j v) k ≡ (if same (canonical j) (canonical k) then v else get h k)
unfolding get set
get-set h j k v = rw values-put (ground arith)

canonical_runs : canonical (codes "x-REQUEST-id") ≡ codes "X-Request-Id"
unfolding canonical
canonical_runs = refl
