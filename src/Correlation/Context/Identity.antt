-- ===== src/Correlation/Context/Identity.antt =====
-- What WithIdentityAttributes and IdentityAttributeValue promise.
use gklog.Base.{
  List, [], ◌∷◌, ◌++◌, Option, none, some, true, false, ◌≡◌, refl, arith, map, if◌then◌else◌,
  is_empty, All, Option-cases, Bool-cases, inl, inr,
}
use gklog.Text.{Bytes, same, same_iff}
use gklog.Text.Trim.{trim_space, trim_space_idem}
use gklog.Text.Keys.{has, distinct, distinct-concat}
use gklog.Correlation.Context.{
  IdentityAttribute, Context, normalize, merge_one, merge_all, with_identity_attributes, value_for,
  identity_attribute_value,
}

abbrev pub keys : List IdentityAttribute → List Bytes
keys attrs = map (λ a. a.key) attrs

-- The value that the last usable attribute with the key gives, or `v` if there is none.
abbrev latest_of : Option IdentityAttribute → Bytes → Bytes → Bytes
latest_of none key v = v
latest_of (some n) key v = if same n.key key then n.value else v

abbrev pub latest : List IdentityAttribute → Bytes → Bytes → Bytes
latest [] key v = v
latest (a ∷ attrs) key v = latest attrs key (latest_of (normalize a) key v)

value_for-merge_one :
    (merged : List IdentityAttribute) (a : IdentityAttribute) (key : Bytes)
    → value_for (merge_one merged a) key
      ≡ (if same a.key key then a.value else value_for merged key)
unfolding value_for merge_one
value_for-merge_one [] a key = refl
value_for-merge_one (b ∷ merged) a key = ground (
  arith,
  value_for-merge_one merged a key,
  same_iff b.key a.key,
  same_iff b.key key,
  same_iff a.key key,
)

value_for-merge_all :
    (merged attrs : List IdentityAttribute) (key : Bytes)
    → value_for (merge_all merged attrs) key ≡ latest attrs key (value_for merged key)
unfolding merge_all
value_for-merge_all merged [] key = refl
value_for-merge_all merged (a ∷ attrs) key = elim (Option-cases (normalize a)) [
  | inl e ↦ rw e (value_for-merge_all merged attrs key)
  | inr (n, e) ↦
      rw (e, ← value_for-merge_one merged n key)
        (value_for-merge_all (merge_one merged n) attrs key)
]

-- A lookup by a key that is not blank, after a merge, gives the value of the last usable attribute merged in for the key, and
-- what it gave before the merge if there is none.
pub identity_attribute_value-with_identity_attributes :
    (c : Context) (attrs : List IdentityAttribute) (key : Bytes)
    → is_empty (trim_space key) ≡ false
    → identity_attribute_value (with_identity_attributes c attrs) key
      ≡ latest attrs (trim_space key) (identity_attribute_value c key)
unfolding identity_attribute_value with_identity_attributes
identity_attribute_value-with_identity_attributes c [] key h = refl
identity_attribute_value-with_identity_attributes c (a ∷ attrs) key h =
    rw h (value_for-merge_all c.identity_attributes (a ∷ attrs) (trim_space key))

keys-merge_one :
    (merged : List IdentityAttribute) (a : IdentityAttribute)
    → keys (merge_one merged a)
      ≡ (if has a.key (keys merged) then keys merged else keys merged ++ a.key ∷ [])
unfolding merge_one
keys-merge_one [] a = refl
keys-merge_one (b ∷ merged) a = ground (arith, keys-merge_one merged a, same_iff b.key a.key)

-- `normalize` leaves the attribute as it is: its key and value are trimmed and not empty.
abbrev pub IsNormal : IdentityAttribute → Type 0
IsNormal a = normalize a ≡ some a

normalize-IsNormal : (a n : IdentityAttribute) → normalize a ≡ some n → IsNormal n
unfolding normalize
normalize-IsNormal a n h = ground (arith, trim_space_idem a.key, trim_space_idem a.value)

-- No key stands twice, and every attribute is normal.
pub record IsClean (attrs : List IdentityAttribute) : Type 0 where
  pub once : distinct (keys attrs) ≡ true
  pub normal : All IsNormal attrs

merge_one-All-IsNormal :
    (merged : List IdentityAttribute) (n : IdentityAttribute)
    → IsNormal n
    → All IsNormal merged
    → All IsNormal (merge_one merged n)
unfolding merge_one
merge_one-All-IsNormal [] n hn h = (hn, tt)
merge_one-All-IsNormal (b ∷ merged) n hn (hb, h) = elim (Bool-cases (same b.key n.key)) [
  | inl e ↦ rw e (hn, h)
  | inr e ↦ rw e (hb, merge_one-All-IsNormal merged n hn h)
]

merge_one-IsClean :
    (merged : List IdentityAttribute) (n : IdentityAttribute)
    → IsNormal n
    → IsClean merged
    → IsClean (merge_one merged n)
merge_one-IsClean merged n hn c = record {
  once = rw keys-merge_one (ground (arith, c.once, distinct-concat (keys merged) n.key));
  normal = merge_one-All-IsNormal merged n hn c.normal;
}

merge_all-IsClean :
    (merged attrs : List IdentityAttribute) → IsClean merged → IsClean (merge_all merged attrs)
unfolding merge_all
merge_all-IsClean merged [] c = c
merge_all-IsClean merged (a ∷ attrs) c = elim (Option-cases (normalize a)) [
  | inl e ↦ rw e (merge_all-IsClean merged attrs c)
  | inr (n, e) ↦ rw e (
      merge_all-IsClean (merge_one merged n) attrs
        (merge_one-IsClean merged n (normalize-IsNormal a n e) c))
]

-- Merging keeps the identity attributes clean, whatever is merged in.
with_identity_attributes-IsClean :
    (c : Context) (attrs : List IdentityAttribute)
    → IsClean c.identity_attributes
    → IsClean (with_identity_attributes c attrs).identity_attributes
unfolding with_identity_attributes
with_identity_attributes-IsClean c [] h = h
with_identity_attributes-IsClean c (a ∷ attrs) h =
    merge_all-IsClean c.identity_attributes (a ∷ attrs) h
