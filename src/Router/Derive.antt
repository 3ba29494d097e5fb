-- ===== src/Router/Derive.antt =====
-- What a router that a chain of WithAttrs and WithGroup made puts around its sinks, and the concern
-- that it reads from a record.
use gklog.Base.{
  ℕ, zero, suc, List, [], ◌∷◌, ◌++◌, Option, none, some, false, ◌≡◌, ◌==◌, refl, sym, ap, ◌∙◌,
  Bool-cases, inl, inr, if◌then◌else◌, is_empty, append_assoc, append-nil, take,
}
use gklog.Base.Int.{ℤ}
use gklog.Text.{Bytes, same}
use gklog.Text.Parts.{split, split-cons}
use gklog.Slog.Steps.{Step, bind, enter}
use gklog.Slog.{Attr, Record, HandlerOps, resolve, value_string}
use gklog.Router.{
  Router, RouterOptions, new_router, first_value, or_fallback, or_else, index_byte, segment,
  attr_concern, concern_of, with_attrs, with_group, in_groups, apply_state,
}

pub derive_all : {H : Type 0} → Router H → List Step → Router H
derive_all router [] = router
derive_all router (bind attrs ∷ steps) = derive_all (with_attrs router attrs) steps
derive_all router (enter name ∷ steps) = derive_all (with_group router name) steps

-- The attributes and the groups of a chain, each in the order of the calls.
abbrev pub attrs_in : List Step → List Attr
attrs_in [] = []
attrs_in (bind attrs ∷ steps) = attrs ++ attrs_in steps
attrs_in (enter name ∷ steps) = attrs_in steps

abbrev named : Bytes → List Bytes → List Bytes
named name names = if is_empty name then names else name ∷ names

abbrev pub names_in : List Step → List Bytes
names_in [] = []
names_in (bind attrs ∷ steps) = names_in steps
names_in (enter name ∷ steps) = named name (names_in steps)

derive_all-attrs :
    {H : Type 0} (router : Router H) (steps : List Step)
    → (derive_all router steps).attrs ≡ router.attrs ++ attrs_in steps
unfolding derive_all with_attrs with_group
derive_all-attrs router [] = sym (append-nil router.attrs)
derive_all-attrs router (bind attrs ∷ steps) =
    derive_all-attrs (with_attrs router attrs) steps
    ∙ append_assoc router.attrs attrs (attrs_in steps)
derive_all-attrs router (enter [] ∷ steps) = derive_all-attrs router steps
derive_all-attrs router (enter (c ∷ name) ∷ steps) =
    derive_all-attrs (with_group router (c ∷ name)) steps

derive_all-groups :
    {H : Type 0} (router : Router H) (steps : List Step)
    → (derive_all router steps).groups ≡ router.groups ++ names_in steps
unfolding derive_all with_attrs with_group
derive_all-groups router [] = sym (append-nil router.groups)
derive_all-groups router (bind attrs ∷ steps) = derive_all-groups (with_attrs router attrs) steps
derive_all-groups router (enter [] ∷ steps) = derive_all-groups router steps
derive_all-groups router (enter (c ∷ name) ∷ steps) =
    derive_all-groups (with_group router (c ∷ name)) steps
    ∙ append_assoc router.groups ((c ∷ name) ∷ []) (names_in steps)

-- A sink in groups, the first one outermost.
abbrev pub within : {H W : Type 0} → HandlerOps H W → List Bytes → H → H
within ops [] h = h
within ops (name ∷ names) h = within ops names (ops.with_group h name)

-- All attributes at once, inside all groups.
abbrev pub bound : {H W : Type 0} → HandlerOps H W → List Attr → H → H
bound ops attrs h = if is_empty attrs then h else ops.with_attrs h attrs

module _ {H W : Type 0} (ops : HandlerOps H W) where
  in_groups-within : (names : List Bytes) (h : H) → in_groups ops names h ≡ within ops names h
  unfolding in_groups
  in_groups-within [] h = refl
  in_groups-within (name ∷ names) h = in_groups-within names (ops.with_group h name)

  apply_state_lem :
      (router : Router H) (h : H)
      → apply_state ops router (some h) ≡ some (bound ops router.attrs (within ops router.groups h))
  unfolding apply_state
  apply_state_lem router h = elim (Bool-cases (is_empty router.attrs)) [
    | inl e ↦ rw (e, in_groups-within router.groups h) refl
    | inr e ↦ rw (e, in_groups-within router.groups h) refl
  ]

  derived_lem :
      (router : Router H) (steps : List Step) (h : H)
      → apply_state ops (derive_all router steps) (some h)
        ≡ some (
            bound ops
              (router.attrs ++ attrs_in steps)
              (within ops (router.groups ++ names_in steps) h))
  derived_lem router steps h =
      apply_state_lem (derive_all router steps) h
      ∙ ap (λ attrs. some (bound ops attrs (within ops (derive_all router steps).groups h)))
          (derive_all-attrs router steps)
      ∙ ap (λ names. some (bound ops (router.attrs ++ attrs_in steps) (within ops names h)))
          (derive_all-groups router steps)

  -- A router that any chain of WithAttrs and WithGroup made from a new one hands a record to its sinks
  -- with all the groups of the chain open, and all its attributes bound inside the last of them: the
  -- order of the calls is kept among the groups and among the attributes, and lost between them, so
  -- that an attribute bound before WithGroup stands in that group too.
  pub apply_state-derive_all :
      (dir : Bytes) (level : ℤ) (combined : Option H) (opts : RouterOptions) (steps : List Step)
      (h : H)
      → apply_state ops (derive_all (new_router dir level combined opts) steps) (some h)
        ≡ some (bound ops (attrs_in steps) (within ops (names_in steps) h))
  unfolding new_router
  apply_state-derive_all dir level combined opts steps h =
      derived_lem (new_router dir level combined opts) steps h

-- The segment of a message in front of its first dot, if there is one and it is not empty.
abbrev pub first_part : Bytes → List Bytes → Bytes
first_part fallback [] = fallback
first_part fallback (p ∷ []) = fallback
first_part fallback (p ∷ q ∷ ps) = if is_empty p then fallback else p

-- Where a message is cut at its first dot.
abbrev Cut : ℕ → Bytes → Option ℕ → Type 0
Cut c s none = split s c ≡ s ∷ []
Cut c s (some i) = (q : Bytes) × (ps : List Bytes) × (split s c ≡ take i s ∷ q ∷ ps)

Cut-cons :
    (c d : ℕ) (s : Bytes) (o : Option ℕ)
    → (d == c) ≡ false
    → Cut c s o
    → Cut c (d ∷ s) (elim o [ none ↦ none | some i ↦ some (suc i) ])
unfolding split
Cut-cons c d s none e h = rw (e, h) refl
Cut-cons c d s (some i) e (q, ps, h) = (q, ps, rw (e, h) refl)

index_byte-Cut : (c : ℕ) (s : Bytes) → Cut c s (index_byte c s)
unfolding index_byte
index_byte-Cut c [] = unfold split in refl
index_byte-Cut c (d ∷ s) = elim (Bool-cases (d == c)) [
  | inl e ↦ let (q, ps, h) = split-cons s c in rw e (q, ps, unfold split in rw (e, h) refl)
  | inr e ↦ let g = Cut-cons c d s (index_byte c s) e (index_byte-Cut c s) in rw e g
]

split-nil :
    (fallback : Bytes) (c : ℕ) (p q : Bytes) (ps : List Bytes)
    → split [] c ≡ p ∷ q ∷ ps
    → [] ≡ first_part fallback (split [] c)
unfolding split
split-nil fallback c p q ps h = cc

segment-first_part :
    (fallback s : Bytes) (c : ℕ) (o : Option ℕ)
    → Cut c s o
    → segment fallback s o ≡ first_part fallback (split s c)
segment-first_part fallback s c none h = rw h refl
segment-first_part fallback s c (some zero) (q, ps, h) = rw h refl
segment-first_part fallback [] c (some (suc i)) (q, ps, h) = split-nil fallback c [] q ps h
segment-first_part fallback (d ∷ s) c (some (suc i)) (q, ps, h) = rw h refl

first_value-append :
    (key : Bytes) (xs ys : List Attr)
    → first_value key (xs ++ ys) ≡ or_else (first_value key xs) (first_value key ys)
unfolding first_value
first_value-append key [] ys = refl
first_value-append key (x ∷ xs) ys = elim (Bool-cases (same x.key key)) [
  | inl e ↦ rw e refl
  | inr e ↦ rw e (first_value-append key xs ys)
]

-- The values of the attributes with a key, in their order.
abbrev pub values_under : Bytes → List Attr → List Bytes
values_under key [] = []
values_under key (a ∷ attrs) =
    if same a.key key
    then value_string (resolve a.value) ∷ values_under key attrs
    else values_under key attrs

-- The first value; the fallback if there is none, or if the first one is empty.
abbrev pub named_concern : Bytes → List Bytes → Bytes
named_concern fallback [] = fallback
named_concern fallback ([] ∷ values) = fallback
named_concern fallback ((c ∷ value) ∷ values) = c ∷ value

fallback-named_concern :
    (fallback v : Bytes) (values : List Bytes)
    → or_fallback fallback (some v) ≡ named_concern fallback (v ∷ values)
fallback-named_concern fallback [] values = refl
fallback-named_concern fallback (c ∷ v) values = refl

first_value-named_concern :
    (fallback key : Bytes) (attrs : List Attr)
    → or_fallback fallback (first_value key attrs) ≡ named_concern fallback (values_under key attrs)
unfolding first_value
first_value-named_concern fallback key [] = refl
first_value-named_concern fallback key (a ∷ attrs) = elim (Bool-cases (same a.key key)) [
  | inl e ↦
      rw e
        (fallback-named_concern fallback (value_string (resolve a.value)) (values_under key attrs))
  | inr e ↦ rw e (first_value-named_concern fallback key attrs)
]

-- The concern of a record: with a concern attribute, the value of the first attribute with that key,
-- those of the router before those of the record, unless it is missing or empty; without one, the
-- text in front of the first dot of the message, unless there is no dot or nothing in front of it. In
-- the other cases it is the fallback.
pub concern_of_lem :
    {H : Type 0} (router : Router H) (r : Record)
    → concern_of router r ≡ (
        if is_empty router.concern_attr
        then first_part router.fallback_concern (split r.message b'.')
        else named_concern router.fallback_concern
            (values_under router.concern_attr (router.attrs ++ r.attrs)))
unfolding concern_of attr_concern
concern_of_lem router r = elim (Bool-cases (is_empty router.concern_attr)) [
  | inl e ↦
      rw e (
        segment-first_part router.fallback_concern r.message b'.' _ (index_byte-Cut b'.' r.message))
  | inr e ↦ rw e (
      ap (or_fallback router.fallback_concern)
        (sym (first_value-append router.concern_attr router.attrs r.attrs))
      ∙ first_value-named_concern router.fallback_concern router.concern_attr
          (router.attrs ++ r.attrs))
]
