-- ===== src/Trace/Query/Journal.antt =====
-- What one query leaves in a journal of everything that the tracer does to the world.
use gklog.Base.{
  ℕ, List, [], ◌∷◌, ◌++◌, Option, none, some, true, ◌≡◌, refl, ap, ◌∙◌, inl, inr, Option-cases,
  append_assoc,
}
use gklog.Base.Int.{ℤ}
use gklog.Text.{Bytes, codes}
use gklog.Time.{sub_time, milliseconds}
use gklog.Errors.{Error, error_text}
use gklog.Slog.{Attr, Record, scalar, string_attr, kept, add_attrs, level_error, level_debug}
use gklog.Slog.Loggers.{Heap, Bound, handler_at, log_attrs}
use gklog.Logger.{logger_from_context}
use gklog.Trace.Ids.{Chain}
use gklog.Trace.Op.{int_attr}
use gklog.Trace.Otel.{string, int, ok, error, Otel, start_span}
use gklog.Trace.Middleware.Journal.{
  Action, started, tagged, status_set, error_recorded, logged, ended, Journal, journal_ops, Outside,
  journaled, three_behind,
}
use gklog.Trace.Query.{EndData, open_query, trace_query_start, end_query, trace_query_end}
use gklog.Trace.Query.Laws.{KeepsStart, apart, trace_query_end-start}

-- OpenTelemetry with a journal, which puts what it likes on the context of a span.
abbrev pub querying : Outside → (ℕ → Chain → Chain) → Otel Journal
querying out derive = record (journaled out).otel {
  start = λ tracer name kind tags ctx w.
      ((derive (out.fresh w) ctx, out.fresh w), w ++ started (out.fresh w) name ∷ []);
}

abbrev outcome_of : ℕ → Option Error → List Action
outcome_of span none = status_set span ok (codes "ok") ∷ []
outcome_of span (some e) = error_recorded span e ∷ status_set span error (error_text e) ∷ []

abbrev query_level : Option Error → ℤ
query_level none = level_debug
query_level (some e) = level_error

abbrev last_attr : EndData → Option Error → Attr
last_attr d none = int_attr (codes "rows") d.rows_affected
last_attr d (some e) = record { key = codes "err"; value = scalar (error_text e) (error_text e) }

-- The record of a query, of the logger that has the attributes.
abbrev pub query_record : Outside → EndData → ℤ → Bound → Record
query_record out d latency h = record {
  time = out.now;
  level = query_level d.err;
  message = codes "db query";
  pc = out.pc;
  attrs =
      h
      ++ string_attr (codes "sql") d.command_tag
        ∷ record {
          key = codes "latency";
          value = scalar (out.duration_text latency) (out.duration_text latency);
        }
        ∷ last_attr d d.err
        ∷ [];
}

-- The measurements on the span, its status, its end, and one record.
abbrev pub query_report : Outside → ℕ → EndData → ℤ → Bound → Journal
query_report out span d latency h =
    tagged span (
      record { key = codes "db.response.command_tag"; value = string d.command_tag }
      ∷ record { key = codes "db.response.rows_affected"; value = int d.rows_affected }
      ∷ record { key = codes "db.query.duration_ms"; value = int (milliseconds latency) }
      ∷ [])
    ∷ (outcome_of span d.err ++ ended span ∷ logged (query_record out d latency h) ∷ [])

four_behind :
    (w : Journal) (a b c d : Action)
    → (((w ++ a ∷ []) ++ b ∷ []) ++ c ∷ []) ++ d ∷ [] ≡ w ++ a ∷ b ∷ c ∷ d ∷ []
four_behind w a b c d = ap (λ x. x ++ d ∷ []) (three_behind w a b c) ∙ append_assoc w _ _

five_behind :
    (w : Journal) (a b c d e : Action)
    → ((((w ++ a ∷ []) ++ b ∷ []) ++ c ∷ []) ++ d ∷ []) ++ e ∷ [] ≡ w ++ a ∷ b ∷ c ∷ d ∷ e ∷ []
five_behind w a b c d e = ap (λ x. x ++ e ∷ []) (four_behind w a b c d) ∙ append_assoc w _ _

module _ (out : Outside) (derive : ℕ → Chain → Chain) where
  end_query-report :
      (start span l : ℕ) (d : EndData) (heap : Heap Bound) (w : Journal)
      → end_query journal_ops
          (journaled out).runtime
          (querying out derive)
          (journaled out).clock
          out.duration_text
          start
          (some span)
          l
          d
          (heap, w)
        ≡ (heap, w ++ query_report out span d (sub_time (out.time w) start) (handler_at heap l))
  unfolding end_query log_attrs add_attrs kept
  end_query-report start span l d heap w = elim (Option-cases d.err) [
    | inl e ↦ rw e (ap (λ x. (heap, x)) (four_behind w _ _ _ _))
    | inr (err, e) ↦ rw e (ap (λ x. (heap, x)) (five_behind w _ _ _ _ _))
  ]

  -- One query, whatever other values its context is given between start and end, and whatever other
  -- code does in between: the start opens one span; the end puts the command tag, the rows and the
  -- milliseconds since the start on that span, then its status, with the error recorded first if there
  -- was one, then ends it, and last logs one record to the logger on the context that it is given, an
  -- error record with the error or a debug record with the rows.
  pub trace_query_end-journal :
      (unicode_upper : Bytes → Bytes) (instrumentation : Option Bytes) (ctx more : Chain)
      (sql : Bytes) (heap : Heap Bound) (w between : Journal) (d : EndData)
      → KeepsStart (querying out derive)
      → apart more ≡ true
      → let (ctx', w1) =
          trace_query_start
            (querying out derive)
            (journaled out).clock
            unicode_upper
            instrumentation
            ctx
            sql
            w in
        let w2 = w1 ++ between in
        (w1 ≡ w ++ started (out.fresh w) (codes "db.query") ∷ [])
        × (trace_query_end journal_ops
              (journaled out).runtime
              (querying out derive)
              (journaled out).clock
              out.duration_text
              (more ++ ctx')
              d
              (heap, w2)
            ≡ (
              heap,
              w2
                  ++ query_report out
                      (out.fresh w)
                      d
                      (sub_time (out.time w2) (out.time w))
                      (handler_at heap (logger_from_context 0 (some (more ++ ctx')))),
            ))
  unfolding trace_query_start open_query start_span
  trace_query_end-journal unicode_upper instrumentation ctx more sql heap w between d kept' h = (
    refl,
    trace_query_end-start journal_ops (journaled out).runtime (querying out derive)
          (journaled out).clock unicode_upper out.duration_text instrumentation ctx more sql w d _
          kept' h
        ∙ end_query-report (out.time w) (out.fresh w) _ d heap _,
  )
