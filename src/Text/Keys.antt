-- ===== src/Text/Keys.antt =====
-- Lists of keys: membership, and lists that hold no key twice.
use gklog.Base.{List, [], ◌∷◌, ◌++◌, Bool, true, false, not, ◌&&◌, ◌||◌, ◌≡◌, refl, arith}
use gklog.Text.{Bytes, same, same_iff}

abbrev pub has : Bytes → List Bytes → Bool
has k [] = false
has k (j ∷ ks) = same j k || has k ks

abbrev pub distinct : List Bytes → Bool
distinct [] = true
distinct (k ∷ ks) = not (has k ks) && distinct ks

pub same_comm : (j k : Bytes) → same j k ≡ same k j
same_comm j k = ground (arith, same_iff j k, same_iff k j)

pub has-append : (k : Bytes) (ks js : List Bytes) → has k (ks ++ js) ≡ (has k ks || has k js)
has-append k [] js = refl
has-append k (j ∷ ks) js = ground (arith, has-append k ks js)

pub distinct-concat :
    (ks : List Bytes) (k : Bytes) → distinct (ks ++ k ∷ []) ≡ (distinct ks && not (has k ks))
distinct-concat [] k = refl
distinct-concat (j ∷ ks) k =
    ground (arith, distinct-concat ks k, has-append j ks (k ∷ []), same_comm j k)

-- No key of the second list is in the first.
abbrev pub apart : List Bytes → List Bytes → Bool
apart ks [] = true
apart ks (j ∷ js) = not (has j ks) && apart ks js

pub apart-nil : (js : List Bytes) → apart [] js ≡ true
apart-nil [] = refl
apart-nil (j ∷ js) = apart-nil js

pub apart-cons :
    (k : Bytes) (ks js : List Bytes) → apart (k ∷ ks) js ≡ (not (has k js) && apart ks js)
apart-cons k ks [] = refl
apart-cons k ks (j ∷ js) = ground (arith, apart-cons k ks js, same_comm k j)

pub distinct-append :
    (ks js : List Bytes) → distinct (ks ++ js) ≡ (distinct ks && distinct js && apart ks js)
distinct-append [] js = ground (arith, apart-nil js)
distinct-append (k ∷ ks) js =
    ground (arith, distinct-append ks js, has-append k ks js, apart-cons k ks js)

-- What two lists of keys with the same members have in common.
pub apart-same :
    (ks ls js : List Bytes) → ((k : Bytes) → has k ks ≡ has k ls) → apart ks js ≡ apart ls js
apart-same ks ls [] h = refl
apart-same ks ls (j ∷ js) h = rw (h j, apart-same ks ls js h)
