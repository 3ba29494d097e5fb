-- ===== src/Correlation/Attrs/Laws.antt =====
-- The attributes of a correlation have distinct keys, and AppendAttrs adds those that are missing.
use gklog.Base.{
  List, [], ◌∷◌, ◌++◌, Bool, true, ◌&&◌, ◌||◌, ◌≡◌, refl, is_empty, sym, ap, ◌∙◌, arith, append-nil,
  map-append,
}
use gklog.Text.{Bytes}
use gklog.Text.Keys.{has, distinct, has-append, apart, apart-nil, distinct-append}
use gklog.Slog.{Attr, keys}
use gklog.Correlation.Context.{Context}
use gklog.Correlation.Attrs.{core_attrs, attrs_of, append_attrs}
use gklog.Correlation.Attrs.Unseen.{
  unseen, usable, or_true, or_not, add_all-unseen, append_identity_attributes-unseen, has-unseen,
  unseen-apart, unseen-distinct, unseen-all_new, unseen-none_new,
}

and_true : (b : Bool) → (b && true && true) ≡ b
and_true b = ground arith

core_attrs-distinct : (c : Context) → distinct (keys (core_attrs c)) ≡ true
unfolding core_attrs
core_attrs-distinct c = ground arith

-- What is unseen repeats no key, also not behind the keys that were seen.
extended-distinct :
    (attrs new : List Attr)
    → distinct (keys (attrs ++ unseen (keys attrs) new)) ≡ distinct (keys attrs)
extended-distinct attrs new =
    rw
      (
        map-append,
        distinct-append (keys attrs) (keys (unseen (keys attrs) new)),
        unseen-distinct (keys attrs) new,
        unseen-apart (keys attrs) new,
      )
      (and_true (distinct (keys attrs)))

-- No key stands twice in the attributes of a correlation, whatever its identity attributes are.
pub attrs_of-distinct : (c : Context) → distinct (keys (attrs_of c)) ≡ true
unfolding attrs_of
attrs_of-distinct c =
    rw append_identity_attributes-unseen
      (extended-distinct (core_attrs c) (usable c.identity_attributes) ∙ core_attrs-distinct c)

is_empty-front : {A : Type 0} (xs ys : List A) → is_empty (xs ++ ys) ≡ true → is_empty xs ≡ true
is_empty-front [] ys h = refl
is_empty-front (x ∷ xs) ys h = cc

core_attrs-trace : (c : Context) → is_empty (core_attrs c) ≡ true → is_empty c.trace_id ≡ true
unfolding core_attrs
core_attrs-trace c h = ground arith

-- A correlation with a trace has an attribute.
pub is_empty-attrs_of : (c : Context) → is_empty (attrs_of c) ≡ true → is_empty c.trace_id ≡ true
unfolding attrs_of
is_empty-attrs_of c h = core_attrs-trace c (
    is_empty-front (core_attrs c) _ (
      ap (λ t. is_empty t)
        (sym (append_identity_attributes-unseen (core_attrs c) c.identity_attributes))
      ∙ h))

append_attrs-unseen :
    (attrs : List Attr) (c : Context)
    → append_attrs attrs c ≡ attrs ++ unseen (keys attrs) (attrs_of c)
append_attrs-unseen [] c =
    unfold append_attrs in
    sym (unseen-all_new [] (attrs_of c) (attrs_of-distinct c) (apart-nil (keys (attrs_of c))))
append_attrs-unseen (a ∷ attrs) c =
    unfold append_attrs in add_all-unseen (a ∷ attrs) (keys (a ∷ attrs)) (attrs_of c)

-- AppendAttrs keeps the caller's attributes in front, adds no key that the caller has, and leaves no
-- key of the correlation out; the keys of the result are distinct exactly if the caller's are.
pub append_attrs_extends :
    (attrs : List Attr) (c : Context)
    → ((added : List Attr) × (append_attrs attrs c ≡ attrs ++ added)
        × (apart (keys attrs) (keys added) ≡ true))
      × ((k : Bytes)
          → has k (keys (append_attrs attrs c)) ≡ (has k (keys attrs) || has k (keys (attrs_of c))))
      × (distinct (keys (append_attrs attrs c)) ≡ distinct (keys attrs))
append_attrs_extends attrs c =
    let added = unseen (keys attrs) (attrs_of c) in
    (
      (added, append_attrs-unseen attrs c, unseen-apart (keys attrs) (attrs_of c)),
      λ k.
          rw (append_attrs-unseen, map-append, has-append, has-unseen)
            (or_not (has k (keys attrs)) _),
      rw append_attrs-unseen (extended-distinct attrs (attrs_of c)),
    )

-- Appending the attributes of the same correlation a second time changes nothing.
pub append_attrs_idem :
    (attrs : List Attr) (c : Context) → append_attrs (append_attrs attrs c) c ≡ append_attrs attrs c
append_attrs_idem attrs c =
    append_attrs-unseen (append_attrs attrs c) c
    ∙ ap (λ t. append_attrs attrs c ++ t)
        (unseen-none_new (keys (append_attrs attrs c)) (attrs_of c)
          λ k h. (append_attrs_extends attrs c).1 k ∙ rw h (or_true (has k (keys attrs))))
    ∙ append-nil (append_attrs attrs c)
