-- ===== src/Correlation/Attrs/Unseen.antt =====
-- The two loops over attributes and keys that were seen append what is unseen.
use gklog.Base.{
  List, [], ◌∷◌, ◌++◌, Option, none, some, Bool, true, false, not, ◌&&◌, ◌||◌, ◌≡◌, refl, sym, ◌∙◌,
  arith, if◌then◌else◌, Bool-cases, inl, inr, append_assoc, append-nil,
}
use gklog.Text.{Bytes, same, same_iff, same_refl}
use gklog.Text.Keys.{has, distinct, apart, apart-cons}
use gklog.Slog.{Attr, string_attr, keys}
use gklog.Correlation.Context.{IdentityAttribute, normalize}
use gklog.Correlation.Attrs.{
  add_identity, add_identities, append_identity_attributes, add_attr, add_all,
}

pub or_true : (b : Bool) → (b || true) ≡ true
or_true b = ground arith

pub or_not : (a b : Bool) → (a || (not a && b)) ≡ (a || b)
or_not a b = ground arith

-- The attributes of `new` whose keys are neither in `seen` nor earlier in `new`.
unfoldable pub unseen : List Bytes → List Attr → List Attr
unseen seen [] = []
unseen seen (a ∷ new) =
    let skip = unseen seen new in
    let take = a ∷ unseen (a.key ∷ seen) new in if has a.key seen then skip else take

add_attr-seen :
    (attrs : List Attr) (seen : List Bytes) (a : Attr)
    → has a.key seen ≡ true
    → add_attr (attrs, seen) a ≡ (attrs, seen)
unfolding add_attr
add_attr-seen attrs seen a e = rw e

add_attr-new :
    (attrs : List Attr) (seen : List Bytes) (a : Attr)
    → has a.key seen ≡ false
    → add_attr (attrs, seen) a ≡ (attrs ++ a ∷ [], a.key ∷ seen)
unfolding add_attr
add_attr-new attrs seen a e = rw e

add_all-cons :
    (st : List Attr × List Bytes) (a : Attr) (new : List Attr)
    → add_all st (a ∷ new) ≡ add_all (add_attr st a) new
unfolding add_all
add_all-cons st a new = refl

-- The loop of AppendAttrs appends the unseen attributes.
pub add_all-unseen :
    (attrs : List Attr) (seen : List Bytes) (new : List Attr)
    → (add_all (attrs, seen) new).0 ≡ attrs ++ unseen seen new
unfolding unseen
add_all-unseen attrs seen [] = unfold add_all in sym (append-nil attrs)
add_all-unseen attrs seen (a ∷ new) = elim (Bool-cases (has a.key seen)) [
  | inl e ↦ rw (add_all-cons, add_attr-seen attrs seen a e, e) (add_all-unseen attrs seen new)
  | inr e ↦
      rw (add_all-cons, add_attr-new attrs seen a e, e)
        (add_all-unseen (attrs ++ a ∷ []) (a.key ∷ seen) new
          ∙ append_assoc attrs (a ∷ []) (unseen (a.key ∷ seen) new))
]

-- The usable identity attributes as log attributes.
abbrev usable_of : Option IdentityAttribute → List Attr → List Attr
usable_of none rest = rest
usable_of (some n) rest = string_attr n.key n.value ∷ rest

unfoldable pub usable : List IdentityAttribute → List Attr
usable [] = []
usable (a ∷ identity_attrs) = usable_of (normalize a) (usable identity_attrs)

add_identity-unseen :
    (ids : List IdentityAttribute)
    → ((st : List Attr × List Bytes) → (add_identities st ids).0 ≡ (add_all st (usable ids)).0)
    → (st : List Attr × List Bytes) (o : Option IdentityAttribute)
    → (add_identities (add_identity st o) ids).0 ≡ (add_all st (usable_of o (usable ids))).0
unfolding add_identity add_all add_attr
add_identity-unseen ids ih st none = ih st
add_identity-unseen ids ih st (some n) = ih (add_attr st (string_attr n.key n.value))

add_identities-unseen :
    (ids : List IdentityAttribute) (st : List Attr × List Bytes)
    → (add_identities st ids).0 ≡ (add_all st (usable ids)).0
unfolding add_identities add_all usable
add_identities-unseen [] st = refl
add_identities-unseen (a ∷ ids) st =
    add_identity-unseen ids (add_identities-unseen ids) st (normalize a)

pub append_identity_attributes-unseen :
    (attrs : List Attr) (ids : List IdentityAttribute)
    → append_identity_attributes attrs ids ≡ attrs ++ unseen (keys attrs) (usable ids)
append_identity_attributes-unseen attrs [] =
    unfold append_identity_attributes unseen usable in sym (append-nil attrs)
append_identity_attributes-unseen attrs (a ∷ ids) =
    unfold append_identity_attributes in
    add_identities-unseen (a ∷ ids) (attrs, keys attrs)
    ∙ add_all-unseen attrs (keys attrs) (usable (a ∷ ids))

pub has-unseen :
    (k : Bytes) (seen : List Bytes) (new : List Attr)
    → has k (keys (unseen seen new)) ≡ (not (has k seen) && has k (keys new))
unfolding unseen
has-unseen k seen [] = ground arith
has-unseen k seen (a ∷ new) =
    ground (arith, has-unseen k seen new, has-unseen k (a.key ∷ seen) new, same_iff a.key k)

pub unseen-apart :
    (seen : List Bytes) (new : List Attr) → apart seen (keys (unseen seen new)) ≡ true
unfolding unseen
unseen-apart seen [] = refl
unseen-apart seen (a ∷ new) = ground (
  arith,
  unseen-apart seen new,
  unseen-apart (a.key ∷ seen) new,
  apart-cons a.key seen (keys (unseen (a.key ∷ seen) new)),
)

pub unseen-distinct :
    (seen : List Bytes) (new : List Attr) → distinct (keys (unseen seen new)) ≡ true
unfolding unseen
unseen-distinct seen [] = refl
unseen-distinct seen (a ∷ new) = ground (
  arith,
  unseen-distinct seen new,
  unseen-distinct (a.key ∷ seen) new,
  apart-cons a.key seen (keys (unseen (a.key ∷ seen) new)),
  unseen-apart (a.key ∷ seen) new,
)

pub unseen-all_new :
    (seen : List Bytes) (new : List Attr)
    → distinct (keys new) ≡ true
    → apart seen (keys new) ≡ true
    → unseen seen new ≡ new
unfolding unseen
unseen-all_new seen [] d h = refl
unseen-all_new seen (a ∷ new) d h =
    ground (arith, unseen-all_new (a.key ∷ seen) new, apart-cons a.key seen (keys new))

pub unseen-none_new :
    (seen : List Bytes) (new : List Attr)
    → ((k : Bytes) → has k (keys new) ≡ true → has k seen ≡ true)
    → unseen seen new ≡ []
unfolding unseen
unseen-none_new seen [] h = refl
unseen-none_new seen (a ∷ new) h =
    let seen_a = h a.key (rw same_refl refl) in
    rw seen_a (unseen-none_new seen new (λ k m. h k (rw m (or_true (same a.key k)))))
