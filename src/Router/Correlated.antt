-- ===== src/Router/Correlated.antt =====
-- A router behind a correlation handler: the pair that the comment on Router advises.
use gklog.Base.{
  ℕ, List, [], ◌∷◌, ◌++◌, Option, none, some, Bool, false, ◌&&◌, map, ◌≡◌, refl, ap, ◌∙◌, arith,
  map-append,
}
use gklog.Text.{Bytes}
use gklog.Text.Keys.{has}
use gklog.Slog.{Attr, keys, Record, HandlerOps}
use gklog.Ctx.{Ctx}
use gklog.Correlation.Context.{Context}
use gklog.Correlation.Carry.{from_context}
use gklog.Correlation.Attrs.{attrs_of}
use gklog.Correlation.Handler.{SlogHandler, enhance, wrap_handle}
use gklog.Correlation.Handler as Correlation
use gklog.Correlation.Handler.Laws.{missing, enhance-missing, has-missing}
use gklog.Correlation.Handler.Strict.{at, hand_on, passed_on, diagnostics, handle_passes_on}
use gklog.Router.{
  Router, Children, lookup, apply_state, concern_of, first_value, or_else, attr_concern, FileMaker,
  handle, router_ops,
}
use gklog.Router.Keep.{Event, run, run-keeps, present, handle-tee}
use gklog.Tee as Tee

-- A record that is handled by a router.
abbrev pub event : {H : Type 0} → Router H → Ctx → Record → Event H
event router ctx r = record { by = router; ctx = ctx; of = r }

module _ {H W : Type 0} (ops : HandlerOps H W) (files : FileMaker H W) where
  -- A router never reports an error, so nothing is lost in between.
  hand_on-run :
      (router : Router H) (ctx : Ctx) (rs : List Record) (st : Children H × W)
      → hand_on (router_ops ops files) router ctx rs st
        ≡ (none, run ops files (map (event router ctx) rs) st)
  unfolding hand_on router_ops run
  hand_on-run router ctx [] st = refl
  hand_on-run router ctx (r ∷ []) st = refl
  hand_on-run router ctx (r ∷ s ∷ rs) st =
      hand_on-run router ctx (s ∷ rs) (handle ops files router ctx r st)

-- Attributes with other keys do not change the concern.
first_value-behind :
    (key : Bytes) (attrs more : List Attr)
    → has key (keys more) ≡ false
    → first_value key (attrs ++ more) ≡ first_value key attrs
unfolding first_value
first_value-behind key [] [] h = refl
first_value-behind key [] (a ∷ more) h = ground (arith, first_value-behind key [] more)
first_value-behind key (a ∷ attrs) more h = ground (arith, first_value-behind key attrs more)

and_false : (a b : Bool) → a ≡ false → (a && b) ≡ false
and_false a b h = ground arith

module _ {H : Type 0} (h : SlogHandler (Router H)) (c : Context) (r : Record) where
  missing-not_concern :
      has h.next.concern_attr (keys (attrs_of c)) ≡ false
      → has h.next.concern_attr (keys (missing h c r)) ≡ false
  missing-not_concern e =
      has-missing h c r h.next.concern_attr
      ∙ and_false (has h.next.concern_attr (keys (attrs_of c))) _ e

  attr_concern-enhance :
      has h.next.concern_attr (keys (attrs_of c)) ≡ false
      → attr_concern h.next (enhance h c r) ≡ attr_concern h.next r
  unfolding attr_concern
  attr_concern-enhance e = rw (enhance-missing h c r) (
      ap (λ v. or_else (first_value h.next.concern_attr h.next.attrs) v)
        (first_value-behind h.next.concern_attr r.attrs (missing h c r) (missing-not_concern e)))

  concern_of-enhance :
      has h.next.concern_attr (keys (attrs_of c)) ≡ false
      → concern_of h.next (enhance h c r) ≡ concern_of h.next r
  unfolding concern_of
  concern_of-enhance e = rw (attr_concern-enhance e) (rw (enhance-missing h c r) refl)

module _ {H W : Type 0} (ops : HandlerOps H W) (files : FileMaker H W) where
  run-append :
      (events more : List (Event H)) (st : Children H × W)
      → run ops files (events ++ more) st ≡ run ops files more (run ops files events st)
  unfolding run
  run-append [] more st = refl
  run-append (e ∷ events) more st = run-append events more (handle ops files e.by e.ctx e.of st)

  -- The router behind the handler handles what is passed on.
  handle-run :
      (h : SlogHandler (Router H)) (ctx : Ctx) (r : Record) (t : ℕ) (st : Children H × W)
      → Correlation.handle (router_ops ops files) (at t) h ctx r st
        ≡ (none, run ops files (map (event h.next ctx) (passed_on h (from_context ctx) r t)) st)
  handle-run h ctx r t st =
      handle_passes_on (router_ops ops files) h ctx r t st
      ∙ ap (λ x. wrap_handle x)
          (hand_on-run ops files h.next ctx (passed_on h (from_context ctx) r t) st)
      ∙ unfold wrap_handle in refl

  -- The router has handled the diagnostics, if any, when the completed record comes.
  handle-last :
      (h : SlogHandler (Router H)) (ctx : Ctx) (r : Record) (t : ℕ) (st : Children H × W)
      → Correlation.handle (router_ops ops files) (at t) h ctx r st ≡ (
        none,
        handle ops files h.next ctx
            (enhance h (from_context ctx) r)
            (run ops files (map (event h.next ctx) (diagnostics h (from_context ctx) r t)) st),
      )
  unfolding run passed_on
  handle-last h ctx r t st = handle-run h ctx r t st ∙ rw (map-append, run-append) refl

  -- A correlation handler over a router that has a handler for the concern of a record: the two sinks
  -- of this concern get the record with the identifiers of its context, as from a tee, once the
  -- diagnostics are handled; the identifiers do not change the concern, unless it is named by one.
  pub handle-both_sinks :
      (h : SlogHandler (Router H)) (ctx : Ctx) (r : Record) (t : ℕ) (children : Children H) (w : W)
      (child : Option H)
      → has h.next.concern_attr (keys (attrs_of (from_context ctx))) ≡ false
      → lookup (concern_of h.next r) children ≡ some child
      → let (children', w') =
          run ops files
            (map (event h.next ctx) (diagnostics h (from_context ctx) r t))
            (children, w) in
        Correlation.handle (router_ops ops files) (at t) h ctx r (children, w) ≡ (
          none,
          (
            children',
            (Tee.handle ops
                (record {
                  children =
                      present (apply_state ops h.next h.next.combined)
                      ++ present (apply_state ops h.next child);
                })
                ctx
                (enhance h (from_context ctx) r)
                w').1,
          ),
        )
  handle-both_sinks h ctx r t children w child e f =
      let c = from_context ctx in
      let events = map (event h.next ctx) (diagnostics h c r t) in
      handle-last h ctx r t (children, w)
      ∙ ap (λ x. (none, x))
          (handle-tee ops files h.next ctx (enhance h c r) _ _ child
            (rw (concern_of-enhance h c r e) (run-keeps ops files events children w _ child f)))
