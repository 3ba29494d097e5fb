-- ===== src/Trace/Op.antt =====
-- trace/op.go: the timer of one operation. `errp` is the pointer that the deferred call is given; the
-- threshold is the variable SlowOpThreshold.
use gklog.Base.{
  ℕ, List, [], ◌∷◌, ◌++◌, Option, none, some, Bool, true, false, not, ◌&&◌, ◌≡◌, refl, ap,
  if◌then◌else◌, Bool-cases, inl, inr,
}
use gklog.Base.Int.{ℤ, pos, ltb_ℤ}
use gklog.Clock.{Clock, system, or_system}
use gklog.Text.{Bytes, codes}
use gklog.Time.{sub_time, milliseconds, int_text}
use gklog.Errors.{Error, error_text}
use gklog.Slog.{
  Attr, scalar, string_attr, Record, kept, new_record, add_attrs, HandlerOps, level_warn,
  level_debug,
}
use gklog.Slog.Loggers.{
  Bound, bound_recorder, Heap, handler_at, handler_at-alloc, Runtime, State, logger_with, log_attrs,
}
use gklog.Ctx.{Ctx}
use gklog.Logger.{logger_from_context}

-- slog.Int64
abbrev pub int_attr : Bytes → ℤ → Attr
int_attr key n = record { key = key; value = scalar (int_text n) (int_text n) }

unfoldable pub op_attrs : Bytes → ℤ → List Attr
op_attrs name dur =
    string_attr (codes "op") name ∷ int_attr (codes "duration_ms") (milliseconds dur) ∷ []

abbrev deref : Option (Option Error) → Option Error
deref none = none
deref (some e) = e

abbrev quick_event : (slow : Bool) → ℤ × List Attr
quick_event slow =
    if slow
    then (level_warn, string_attr (codes "status") (codes "slow") ∷ [])
    else (level_debug, string_attr (codes "status") (codes "ok") ∷ [])

abbrev event_for : Option Error → (slow : Bool) → ℤ × List Attr
event_for (some e) slow = (
  level_warn,
  string_attr (codes "status") (codes "failed") ∷ string_attr (codes "err") (error_text e) ∷ [],
)
event_for none slow = quick_event slow

-- The switch: the level of the event and its attributes.
unfoldable pub op_event : (threshold : ℤ) → Option (Option Error) → ℤ → ℤ × List Attr
op_event threshold errp dur = event_for (deref errp) (ltb_ℤ threshold dur)

-- Op returns the start time with the rest of its work to do.
unfoldable pub op_start : {W : Type 0} → (W → ℕ × W) → W → ℕ × W
op_start clock w = clock w

module _ {H W : Type 0} (ops : HandlerOps H W) (rt : Runtime W) (clock : W → ℕ × W) where
  unfoldable pub op_end :
      (threshold : ℤ) → Ctx → Bytes → (start : ℕ) → Option (Option Error) → State H W → State H W
  unfolding op_attrs op_event
  op_end threshold ctx name start errp (heap, w) =
      let (t, w') = clock w in
      let dur = sub_time t start in
      let (l, st) = logger_with ops (logger_from_context 0 ctx) (op_attrs name dur) (heap, w') in
      let (level, attrs) = op_event threshold errp dur in log_attrs ops rt l ctx level name attrs st

-- opWithClock and Op: the reading at the start, and the function that is called deferred. `opClock` may
-- be nil.
module _ {H W : Type 0} (ops : HandlerOps H W) (rt : Runtime W) (time_now : W → ℕ × W) where
  unfoldable pub op_with_clock :
      (threshold : ℤ)
      → Ctx
      → Bytes
      → Option (Clock W)
      → State H W
      → (Option (Option Error) → State H W → State H W) × State H W
  unfolding op_start op_end
  op_with_clock threshold ctx name op_clock (heap, w) =
      let clock = or_system time_now op_clock in
      let (start, w') = op_start clock.now w in
      (op_end ops rt clock.now threshold ctx name start, (heap, w'))

  unfoldable pub op :
      (threshold : ℤ)
      → Ctx
      → Bytes
      → State H W
      → (Option (Option Error) → State H W → State H W) × State H W
  unfolding op_with_clock
  op threshold ctx name st = op_with_clock threshold ctx name (some (system time_now)) st

-- SlowOpThreshold, as it is initialised: 50 milliseconds.
abbrev pub slow_op_threshold : ℤ
slow_op_threshold = pos 50_000_000

-- Clocks that stand still.
abbrev pub still : {W : Type 0} → ℕ → W → ℕ × W
still t w = (t, w)

abbrev succeeded : Option Error → Bool
succeeded none = true
succeeded (some e) = false

abbrev status_text : Option Error → Bool → Bytes
status_text (some e) slow = codes "failed"
status_text none slow = if slow then codes "slow" else codes "ok"

abbrev error_attrs : Option Error → List Attr
error_attrs none = []
error_attrs (some e) = string_attr (codes "err") (error_text e) ∷ []

-- What an operation that ran for a duration should leave in the log.
abbrev pub op_record : ℤ → Bytes → Option Error → ℤ → (now pc : ℕ) → Bound → Record
op_record threshold name e dur now pc h = record {
  time = now;
  level = if succeeded e && not (ltb_ℤ threshold dur) then level_debug else level_warn;
  message = name;
  pc = pc;
  attrs =
      (h ++ string_attr (codes "op") name ∷ int_attr (codes "duration_ms") (milliseconds dur) ∷ [])
      ++ string_attr (codes "status") (status_text e (ltb_ℤ threshold dur)) ∷ error_attrs e;
}

abbrev event_record : (t pc : ℕ) → Bytes → Bound → ℤ × List Attr → Record
event_record t pc message h (level, attrs) =
    record (add_attrs (new_record t level message pc) attrs) {
      attrs = h ++ (add_attrs (new_record t level message pc) attrs).attrs;
    }

event_record_lem :
    (threshold : ℤ) (name : Bytes) (e : Option Error) (dur : ℤ) (t pc : ℕ) (h : Bound)
    → event_record t pc name
        (h
          ++ string_attr (codes "op") name ∷ int_attr (codes "duration_ms") (milliseconds dur) ∷ [])
        (event_for e (ltb_ℤ threshold dur))
      ≡ op_record threshold name e dur t pc h
unfolding add_attrs kept
event_record_lem threshold name (some e) dur t pc h = refl
event_record_lem threshold name none dur t pc h = elim (Bool-cases (ltb_ℤ threshold dur)) [
  | inl q ↦ rw q refl
  | inr q ↦ rw q refl
]

-- The deferred call logs one record to the logger on the context: its message is the name, its
-- attributes are those of the logger, the name, the milliseconds since the start and the outcome. A
-- failure is a warning with the error's text, however long it took; a success is a debug record,
-- unless it took longer than the threshold, which is a warning.
pub op_end-record :
    (threshold : ℤ) (ctx : Ctx) (name : Bytes) (start now t pc : ℕ) (errp : Option (Option Error))
    (heap : Heap Bound) (w : List Record)
    → (op_end bound_recorder
        (record { now = still t; caller = λ w. pc })
        (still now)
        threshold
        ctx
        name
        start
        errp
        (heap, w)).1
      ≡ w
        ++ op_record threshold name
            (deref errp)
            (sub_time now start)
            t
            pc
            (handler_at heap (logger_from_context 0 ctx))
          ∷ []
unfolding op_end logger_with log_attrs op_attrs op_event
op_end-record threshold ctx name start now t pc errp heap w =
    let h = handler_at heap (logger_from_context 0 ctx) in
    let dur = sub_time now start in
    rw (handler_at-alloc (h ++ op_attrs name dur) heap)
      (ap (λ r. w ++ r ∷ []) (event_record_lem threshold name (deref errp) dur t pc h))
