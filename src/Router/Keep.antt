-- ===== src/Router/Keep.antt =====
-- The handler of a concern is made once, and a router whose concern has one acts as a tee.
use gklog.Base.{
  List, [], ◌∷◌, ◌++◌, Option, none, some, true, false, ◌≡◌, inl, inr, refl, sym, ap, ◌∙◌,
  Bool-cases, Option-cases, is_empty,
}
use gklog.Text.{Bytes, same, same_refl, same_iff}
use gklog.Slog.{Record, HandlerOps}
use gklog.Ctx.{Ctx}
use gklog.Router.{
  Router, Children, lookup, concern_of, FileMaker, apply_state, offer, make_child, child_for,
  handle,
}
use gklog.Tee.{TeeHandler}
use gklog.Tee as Tee
use gklog.Tee.Laws.{handle-world}

-- A record handled by some clone of a router; the clones share the map.
pub record Event (H : Type 0) : Type 0 where
  pub by : Router H
  pub ctx : Ctx
  pub of : Record

lookup-front :
    {H : Type 0} (j k : Bytes) (h : Option H) (children : Children H)
    → same j k ≡ true
    → lookup k ((j, h) ∷ children) ≡ some h
unfolding lookup
lookup-front j k h children e = rw e refl

lookup-behind :
    {H : Type 0} (j k : Bytes) (h : Option H) (children : Children H)
    → same j k ≡ false
    → lookup k ((j, h) ∷ children) ≡ lookup k children
unfolding lookup
lookup-behind j k h children e = rw e refl

-- Of two keys, one with an entry and one without, the names differ.
other_key :
    {H : Type 0} (j k : Bytes) (children : Children H) (h : Option H)
    → lookup j children ≡ none
    → lookup k children ≡ some h
    → same j k ≡ false
other_key j k children h n f = elim (Bool-cases (same j k)) [
  | inl e ↦ let (to, _) = same_iff j k in let p : lookup j children ≡ some h = rw (to e) f in cc
  | inr e ↦ e
]

abbrev pub present : {H : Type 0} → Option H → List H
present none = []
present (some h) = h ∷ []

module _ {H W : Type 0} (ops : HandlerOps H W) (files : FileMaker H W) where
  unfoldable pub run : List (Event H) → Children H × W → Children H × W
  run [] st = st
  run (e ∷ events) st = run events (handle ops files e.by e.ctx e.of st)

  -- The map behind a new child: one more entry in front.
  make_child-children :
      (router : Router H) (concern : Bytes) (children : Children H) (w : W)
      → (make_child files router concern (children, w)).1.0
        ≡ (concern, (make_child files router concern (children, w)).0) ∷ children
  unfolding make_child
  make_child-children router concern children w =
      elim (Bool-cases (is_empty (router.path_for_concern concern))) [
        | inl e ↦ rw e refl
        | inr e ↦ rw e refl
      ]

  child_for-known :
      (router : Router H) (k : Bytes) (children : Children H) (w : W) (h : Option H)
      → lookup k children ≡ some h
      → child_for files router k (children, w) ≡ (h, (children, w))
  unfolding child_for
  child_for-known router k children w h f = rw (f, child_for) refl

  child_for-new :
      (router : Router H) (k : Bytes) (children : Children H) (w : W)
      → lookup k children ≡ none
      → child_for files router k (children, w) ≡ make_child files router k (children, w)
  unfolding child_for
  child_for-new router k children w f = rw (f, child_for) refl

  -- After child_for the map has an entry for the concern: what was returned.
  lookup-child_for :
      (router : Router H) (concern : Bytes) (children : Children H) (w : W)
      → lookup concern (child_for files router concern (children, w)).1.0
        ≡ some (child_for files router concern (children, w)).0
  lookup-child_for router concern children w = elim (Option-cases (lookup concern children)) [
    | inl e ↦
        rw
          (child_for-new router concern children w e, make_child-children router concern children w)
          (lookup-front concern concern _ children (same_refl concern))
    | inr (h, e) ↦ rw (child_for-known router concern children w h e) e
  ]

  -- A concern that has an entry keeps it, whatever concern is asked for.
  child_for-keeps :
      (router : Router H) (concern k : Bytes) (children : Children H) (w : W) (h : Option H)
      → lookup k children ≡ some h
      → lookup k (child_for files router concern (children, w)).1.0 ≡ some h
  child_for-keeps router concern k children w h f = elim (Option-cases (lookup concern children)) [
    | inl e ↦
        rw
          (child_for-new router concern children w e, make_child-children router concern children w)
          (lookup-behind concern k _ children (other_key concern k children h e f) ∙ f)
    | inr (g, e) ↦ rw (child_for-known router concern children w g e) f
  ]

  handle-keeps :
      (router : Router H) (ctx : Ctx) (r : Record) (children : Children H) (w : W) (k : Bytes)
      (h : Option H)
      → lookup k children ≡ some h
      → lookup k (handle ops files router ctx r (children, w)).0 ≡ some h
  unfolding handle
  handle-keeps router ctx r children w k h f =
      child_for-keeps router (concern_of router r) k children _ h f

  pub run-keeps :
      (events : List (Event H)) (children : Children H) (w : W) (k : Bytes) (h : Option H)
      → lookup k children ≡ some h
      → lookup k (run events (children, w)).0 ≡ some h
  unfolding run
  run-keeps [] children w k h f = f
  run-keeps (e ∷ events) children w k h f =
      run-keeps events _ _ k h (handle-keeps e.by e.ctx e.of children w k h f)

  made_by_handle :
      (e : Event H) (children : Children H) (w : W)
      → lookup (concern_of e.by e.of) (handle ops files e.by e.ctx e.of (children, w)).0
        ≡ some
            (child_for files e.by
              (concern_of e.by e.of)
              (children, offer ops e.ctx e.of (apply_state ops e.by e.by.combined) w)).0
  unfolding handle
  made_by_handle e children w = lookup-child_for e.by (concern_of e.by e.of) children _

  kept_by_run :
      (e : Event H) (events : List (Event H)) (children : Children H) (w : W) (h : Option H)
      → lookup (concern_of e.by e.of) (handle ops files e.by e.ctx e.of (children, w)).0 ≡ some h
      → lookup (concern_of e.by e.of) (run (e ∷ events) (children, w)).0 ≡ some h
  unfolding run
  kept_by_run e events children w h f = run-keeps events _ _ (concern_of e.by e.of) h f

  -- The handler that was made for the concern of a record is the one that every clone uses for that
  -- concern from then on, whatever records are handled in between: no file is opened for it again, and
  -- if the concern has no file, none is ever opened.
  pub child_for-run :
      (e : Event H) (events : List (Event H)) (router : Router H) (children : Children H) (w : W)
      → (h : Option H) × (lookup
            (concern_of e.by e.of)
            (handle ops files e.by e.ctx e.of (children, w)).0
          ≡ some h)
        × (child_for files router (concern_of e.by e.of) (run (e ∷ events) (children, w))
            ≡ (h, run (e ∷ events) (children, w)))
  child_for-run e events router children w =
      let f = made_by_handle e children w in
      (
        _,
        f,
        child_for-known router (concern_of e.by e.of) _ _ _ (kept_by_run e events children w _ f),
      )

  -- A tee over at most two handlers.
  tee_two :
      (ctx : Ctx) (r : Record) (a b : Option H) (w : W)
      → (Tee.handle ops (record { children = present a ++ present b }) ctx r w).1
        ≡ offer ops ctx r b (offer ops ctx r a w)
  unfolding offer
  tee_two ctx r none none w = handle-world ops ctx r _ w
  tee_two ctx r none (some b) w = handle-world ops ctx r _ w
  tee_two ctx r (some a) none w = handle-world ops ctx r _ w
  tee_two ctx r (some a) (some b) w = handle-world ops ctx r _ w

  -- A router that has a handler for the concern of a record, or knows that it has no file, acts on the
  -- world as a tee over the combined handler and that one, both with the router's groups and
  -- attributes.
  pub handle-tee :
      (router : Router H) (ctx : Ctx) (r : Record) (children : Children H) (w : W) (h : Option H)
      → lookup (concern_of router r) children ≡ some h
      → handle ops files router ctx r (children, w) ≡ (
        children,
        (Tee.handle ops
            (record {
              children =
                  present (apply_state ops router router.combined)
                  ++ present (apply_state ops router h);
            })
            ctx
            r
            w).1,
      )
  unfolding handle
  handle-tee router ctx r children w h f =
      rw (child_for-known router (concern_of router r) children _ h f) (
        ap (λ x. (children, x))
          (sym
            (tee_two ctx r (apply_state ops router router.combined) (apply_state ops router h) w)))
