-- ===== src/Correlation/Handler/Strict.antt =====
-- The sequence of records that reaches the next handler, and the errors that come back.
use gklog.Base.{
  ℕ, List, [], ◌∷◌, ◌++◌, Option, none, some, Bool, true, false, not, ◌&&◌, ◌||◌, map, ◌≡◌, refl,
  sym, ap, ◌∙◌, arith, if◌then◌else◌, is_empty, Bool-cases, inl, inr,
}
use gklog.Text.{Bytes}
use gklog.Text.Keys.{has, has-append}
use gklog.Errors.{Error, handle_error, unwrap}
use gklog.Slog.{keys, Record, HandlerOps}
use gklog.Ctx.{Ctx}
use gklog.Correlation.Context.{Context}
use gklog.Correlation.Carry.{from_context}
use gklog.Correlation.Attrs.{attrs_of}
use gklog.Correlation.Attrs.Laws.{is_empty-attrs_of}
use gklog.Correlation.Handler.{
  SlogHandler, missing_from, enhance, existing_keys, wrap_handle, diagnostic, emit_missing_field,
  emit_all, strict_check, handle,
}
use gklog.Correlation.Handler.Laws.{enhance-Completes, enhance-bare, has-missing_from}

-- A clock that stands at `t`.
abbrev pub at : {W : Type 0} → ℕ → W → ℕ × W
at t w = (t, w)

-- Records given to a handler one after the other; the errors are dropped.
unfoldable pub give_all : {H W : Type 0} → HandlerOps H W → H → Ctx → List Record → W → W
give_all ops h ctx [] w = w
give_all ops h ctx (r ∷ rs) w = give_all ops h ctx rs (ops.handle h ctx r w).1

-- The same with the result of the last one.
unfoldable pub hand_on :
    {H W : Type 0} → HandlerOps H W → H → Ctx → List Record → W → Option Error × W
hand_on ops h ctx [] w = (none, w)
hand_on ops h ctx (r ∷ []) w = ops.handle h ctx r w
hand_on ops h ctx (r ∷ s ∷ rs) w = hand_on ops h ctx (s ∷ rs) (ops.handle h ctx r w).1

pub hand_on-last :
    {H W : Type 0} (ops : HandlerOps H W) (h : H) (ctx : Ctx) (rs : List Record) (r : Record)
    (w : W)
    → hand_on ops h ctx (rs ++ r ∷ []) w ≡ ops.handle h ctx r (give_all ops h ctx rs w)
unfolding hand_on give_all
hand_on-last ops h ctx [] r w = refl
hand_on-last ops h ctx (s ∷ []) r w = refl
hand_on-last ops h ctx (s ∷ t ∷ rs) r w = hand_on-last ops h ctx (t ∷ rs) r (ops.handle h ctx s w).1

-- The required fields that are not among the keys, in their order.
abbrev pub absent : List Bytes → List Bytes → List Bytes
absent present [] = []
absent present (f ∷ required) =
    if has f present then absent present required else f ∷ absent present required

absent-same :
    (ks ls required : List Bytes)
    → ((k : Bytes) → has k ks ≡ has k ls)
    → absent ks required ≡ absent ls required
absent-same ks ls [] h = refl
absent-same ks ls (f ∷ required) h = rw (h f, absent-same ks ls required h)

-- The diagnostics for a record: one for each required field that the completed record and the handler
-- lack, in order, if the check is on and there is a trace.
abbrev pub diagnostics : {H : Type 0} → SlogHandler H → Context → Record → ℕ → List Record
diagnostics h c r t =
    if h.strict && not (is_empty c.trace_id)
    then map (λ f. diagnostic c f r t)
        (absent (keys h.attrs ++ keys (enhance h c r).attrs) h.required)
    else []

no_check : (b : Bool) → (b && false) ≡ false
no_check b = ground arith

diagnostics-bare :
    {H : Type 0} (h : SlogHandler H) (c : Context) (r : Record) (t : ℕ)
    → is_empty (attrs_of c) ≡ true
    → diagnostics h c r t ≡ []
diagnostics-bare h c r t e = rw (is_empty-attrs_of c e, no_check h.strict) refl

-- The records that the handler passes on for one record: the diagnostics and then the completed
-- record.
unfoldable pub passed_on : {H : Type 0} → SlogHandler H → Context → Record → ℕ → List Record
passed_on h c r t = diagnostics h c r t ++ enhance h c r ∷ []

passed_on-bare :
    {H : Type 0} (h : SlogHandler H) (c : Context) (r : Record) (t : ℕ)
    → is_empty (attrs_of c) ≡ true
    → passed_on h c r t ≡ r ∷ []
unfolding passed_on
passed_on-bare h c r t e = rw (diagnostics-bare h c r t e, enhance-bare h c r e) refl

module _ {H W : Type 0} (ops : HandlerOps H W) (h : SlogHandler H) (ctx : Ctx) (c : Context)
    (r : Record) (t : ℕ) where
  emit_all-absent :
      (existing required : List Bytes) (w : W)
      → emit_all ops (at t) h ctx c existing required r w
        ≡ give_all ops h.next ctx (map (λ f. diagnostic c f r t) (absent existing required)) w
  unfolding emit_all emit_missing_field give_all
  emit_all-absent existing [] w = refl
  emit_all-absent existing (f ∷ required) w = elim (Bool-cases (has f existing)) [
    | inl e ↦ rw e (emit_all-absent existing required w)
    | inr e ↦
        rw e (emit_all-absent existing required (ops.handle h.next ctx (diagnostic c f r t) w).1)
  ]

missing_or : (a b : Bool) → ((a && not b) || b) ≡ (b || a)
missing_or a b = ground arith

has-existing_keys :
    {H : Type 0} (h : SlogHandler H) (c : Context) (r : Record) (k : Bytes)
    → has k (existing_keys h c r) ≡ has k (keys h.attrs ++ keys (enhance h c r).attrs)
unfolding existing_keys
has-existing_keys h c r k =
    let old = keys h.attrs ++ keys r.attrs in
    has-append k (keys (missing_from old (attrs_of c))) old
    ∙ rw (has-missing_from old k (attrs_of c)) (missing_or (has k (keys (attrs_of c))) (has k old))
    ∙ sym ((enhance-Completes h c r).all_there k)

module _ {H W : Type 0} (ops : HandlerOps H W) (h : SlogHandler H) (ctx : Ctx) (r : Record)
    (t : ℕ) where
  checked :
      (c : Context) (w : W)
      → strict_check ops (at t) h ctx c r w ≡ give_all ops h.next ctx (diagnostics h c r t) w
  unfolding strict_check give_all
  checked c w = elim (Bool-cases (h.strict && not (is_empty c.trace_id))) [
    | inl e ↦ rw e (
        emit_all-absent ops h ctx c r t (existing_keys h c r) h.required w
        ∙ ap (λ fields. give_all ops h.next ctx (map (λ f. diagnostic c f r t) fields) w)
            (absent-same (existing_keys h c r) _ h.required (has-existing_keys h c r)))
    | inr e ↦ rw e refl
  ]

  -- A call of Handle passes exactly these records on to the next handler, in this order, whatever
  -- that does with them: the errors of the diagnostics are dropped, and that of the last record is
  -- wrapped.
  pub handle_passes_on :
      (w : W)
      → handle ops (at t) h ctx r w
        ≡ wrap_handle (hand_on ops h.next ctx (passed_on h (from_context ctx) r t) w)
  unfolding handle hand_on
  handle_passes_on w = elim (Bool-cases (is_empty (attrs_of (from_context ctx)))) [
    | inl e ↦ rw (e, passed_on-bare h (from_context ctx) r t e) refl
    | inr e ↦
        let c = from_context ctx in
        rw (e, checked c w)
          (ap (λ x. wrap_handle x)
            (unfold passed_on in
              sym (hand_on-last ops h.next ctx (diagnostics h c r t) (enhance h c r) w)))
  ]

wrapped : (e' e : Error) → some (handle_error e') ≡ some e → unwrap e ≡ e' ∷ []
unfolding unwrap
wrapped e' e h = let q : handle_error e' ≡ e = cc in rw (← q)

wrap_handle-some :
    {W : Type 0} (p : Option Error × W) (e : Error)
    → (wrap_handle p).0 ≡ some e
    → (e' : Error) × (unwrap e ≡ e' ∷ []) × (p.0 ≡ some e')
unfolding wrap_handle unwrap
wrap_handle-some (none, w) e h = cc
wrap_handle-some (some e', w) e h = (e', wrapped e' e h, refl)

-- Every branch of Handle ends with one call of the next handler.
handle_calls_next :
    {H W : Type 0} (ops : HandlerOps H W) (now : W → ℕ × W) (h : SlogHandler H) (ctx : Ctx)
    (r : Record) (w : W)
    → (r' : Record) × (w' : W) × (handle ops now h ctx r w
        ≡ wrap_handle (ops.handle h.next ctx r' w'))
unfolding handle
handle_calls_next ops now h ctx r w = elim (Bool-cases (is_empty (attrs_of (from_context ctx)))) [
  | inl q ↦ rw q (r, w, refl)
  | inr q ↦
      rw q (enhance h (from_context ctx) r, strict_check ops now h ctx (from_context ctx) r w, refl)
]

-- An error of Handle wraps the error that the next handler gave for the record handed on to it.
handle_error_wraps :
    {H W : Type 0} (ops : HandlerOps H W) (now : W → ℕ × W) (h : SlogHandler H) (ctx : Ctx)
    (r : Record) (w : W) (e : Error)
    → (handle ops now h ctx r w).0 ≡ some e
    → (e' : Error) × (unwrap e ≡ e' ∷ [])
      × ((r' : Record) × (w' : W) × ((ops.handle h.next ctx r' w').0 ≡ some e'))
handle_error_wraps ops now h ctx r w e p =
    let (r', w', same_call) = handle_calls_next ops now h ctx r w in
    let (e', u, q) =
      wrap_handle-some (ops.handle h.next ctx r' w') e (ap (λ x. x.0) (sym same_call) ∙ p) in
    (e', u, (r', w', q))
