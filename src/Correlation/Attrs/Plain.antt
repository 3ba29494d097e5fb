-- ===== src/Correlation/Attrs/Plain.antt =====
-- The attributes of a correlation are strings, so AddAttrs drops none of them.
use gklog.Base.{
  List, [], ◌∷◌, Bool, true, not, ◌≡◌, refl, arith, all, all-append, Option-cases, inl, inr,
}
use gklog.Text.{Bytes}
use gklog.Slog.{Attr, is_empty_group, kept}
use gklog.Correlation.Context.{Context, IdentityAttribute, normalize}
use gklog.Correlation.Attrs.{core_attrs, attrs_of}
use gklog.Correlation.Attrs.Unseen.{unseen, usable, append_identity_attributes-unseen}

abbrev pub is_plain : Attr → Bool
is_plain a = not (is_empty_group a.value)

-- AddAttrs keeps plain attributes.
pub kept-of_plain : (attrs : List Attr) → all is_plain attrs ≡ true → kept attrs ≡ attrs
unfolding kept
kept-of_plain [] h = refl
kept-of_plain (a ∷ attrs) h = ground (arith, kept-of_plain attrs)

core_attrs-plain : (c : Context) → all is_plain (core_attrs c) ≡ true
unfolding core_attrs
core_attrs-plain c = ground arith

usable-plain : (ids : List IdentityAttribute) → all is_plain (usable ids) ≡ true
unfolding usable
usable-plain [] = refl
usable-plain (a ∷ ids) = elim (Option-cases (normalize a)) [
  | inl e ↦ rw e (usable-plain ids)
  | inr (n, e) ↦ rw e (usable-plain ids)
]

unseen-plain :
    (seen : List Bytes) (new : List Attr)
    → all is_plain new ≡ true
    → all is_plain (unseen seen new) ≡ true
unfolding unseen
unseen-plain seen [] h = refl
unseen-plain seen (a ∷ new) h =
    ground (arith, unseen-plain seen new, unseen-plain (a.key ∷ seen) new)

pub attrs_of-plain : (c : Context) → all is_plain (attrs_of c) ≡ true
unfolding attrs_of
attrs_of-plain c = rw (
  append_identity_attributes-unseen,
  all-append,
  core_attrs-plain c,
  unseen-plain _ (usable c.identity_attributes) (usable-plain c.identity_attributes),
)
