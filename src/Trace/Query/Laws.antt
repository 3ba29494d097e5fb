-- ===== src/Trace/Query/Laws.antt =====
-- What the end of a query finds on its context.
use gklog.Base.{ℕ, List, [], ◌∷◌, ◌++◌, Option, some, Bool, true, false, ◌≡◌, refl, ◌∙◌}
use gklog.Base.Int.{ℤ}
use gklog.Text.{Bytes, codes}
use gklog.Slog.{HandlerOps}
use gklog.Slog.Loggers.{Runtime, State}
use gklog.Ctx.{Binding, correlation, logger, request_id, query_start, query_span, foreign}
use gklog.Logger.{logger_from_context}
use gklog.Trace.Ids.{Chain}
use gklog.Trace.Otel.{Tag, client, SpanKind, Otel, start_span}
use gklog.Trace.Query.{
  EndData, query_start_of, query_span_of, open_query, trace_query_start, end_query, trace_query_end,
}

-- Nothing of a query's tracing is among the values.
abbrev pub apart : List Binding → Bool
apart [] = true
apart (query_start t ∷ ctx) = false
apart (query_span s ∷ ctx) = false
apart (_ ∷ ctx) = apart ctx

query_start_of-append :
    (more ctx : Chain) → apart more ≡ true → query_start_of (more ++ ctx) ≡ query_start_of ctx
unfolding query_start_of
query_start_of-append [] ctx h = refl
query_start_of-append (query_start t ∷ more) ctx h = cc
query_start_of-append (query_span s ∷ more) ctx h = cc
query_start_of-append (correlation c ∷ more) ctx h = query_start_of-append more ctx h
query_start_of-append (logger l ∷ more) ctx h = query_start_of-append more ctx h
query_start_of-append (request_id id ∷ more) ctx h = query_start_of-append more ctx h
query_start_of-append (foreign n v ∷ more) ctx h = query_start_of-append more ctx h

query_span_of-append :
    (more ctx : Chain) → apart more ≡ true → query_span_of (more ++ ctx) ≡ query_span_of ctx
unfolding query_span_of
query_span_of-append [] ctx h = refl
query_span_of-append (query_start t ∷ more) ctx h = cc
query_span_of-append (query_span s ∷ more) ctx h = cc
query_span_of-append (correlation c ∷ more) ctx h = query_span_of-append more ctx h
query_span_of-append (logger l ∷ more) ctx h = query_span_of-append more ctx h
query_span_of-append (request_id id ∷ more) ctx h = query_span_of-append more ctx h
query_span_of-append (foreign n v ∷ more) ctx h = query_span_of-append more ctx h

-- OpenTelemetry's Start keeps the start time that is on the context.
abbrev pub KeepsStart : {W : Type 0} → Otel W → Type 0
KeepsStart {W} otel =
    (tracer name : Bytes) (kind : SpanKind) (tags : List Tag) (ctx : Chain) (w : W)
    → query_start_of (otel.start tracer name kind tags ctx w).0.0 ≡ query_start_of ctx

under_span :
    (more ctx : Chain) (s : ℕ) (o : Option ℕ)
    → apart more ≡ true
    → query_start_of ctx ≡ o
    → query_start_of (more ++ query_span s ∷ ctx) ≡ o
under_span more ctx s o h e =
    query_start_of-append more (query_span s ∷ ctx) h ∙ unfold query_start_of in e

at_span :
    (more ctx : Chain) (s : ℕ)
    → apart more ≡ true
    → query_span_of (more ++ query_span s ∷ ctx) ≡ some s
at_span more ctx s h =
    query_span_of-append more (query_span s ∷ ctx) h ∙ unfold query_span_of in refl

open_query-start :
    {W : Type 0} (otel : Otel W) (clock : W → ℕ × W) (unicode_upper : Bytes → Bytes)
    (instrumentation : Option Bytes) (ctx : Chain) (sql : Bytes) (w : W)
    → KeepsStart otel
    → query_start_of (open_query otel clock unicode_upper instrumentation ctx sql w).0.0
      ≡ some (clock w).0
unfolding open_query start_span
open_query-start otel clock unicode_upper instrumentation ctx sql w kept =
    kept _ (codes "db.query") client _ (query_start (clock w).0 ∷ ctx) _
    ∙ unfold query_start_of in refl

-- The end of a query goes by the clock's reading at its start and by the span that was opened there,
-- whatever other values the context was given in between.
pub trace_query_end-start :
    {H W : Type 0} (ops : HandlerOps H W) (rt : Runtime W) (otel : Otel W) (clock : W → ℕ × W)
    (unicode_upper : Bytes → Bytes) (duration_text : ℤ → Bytes) (instrumentation : Option Bytes)
    (ctx more : Chain) (sql : Bytes) (w : W) (d : EndData) (st : State H W)
    → KeepsStart otel
    → apart more ≡ true
    → trace_query_end ops rt otel clock duration_text
        (more ++ (trace_query_start otel clock unicode_upper instrumentation ctx sql w).0)
        d
        st
      ≡ end_query ops rt otel clock duration_text
          (clock w).0
          (some (open_query otel clock unicode_upper instrumentation ctx sql w).0.1)
          (logger_from_context 0 (
            some
              (more ++ (trace_query_start otel clock unicode_upper instrumentation ctx sql w).0)))
          d
          st
unfolding trace_query_end trace_query_start
trace_query_end-start ops rt otel clock unicode_upper duration_text instrumentation ctx more sql w d
      st kept h =
    let o = open_query otel clock unicode_upper instrumentation ctx sql w in
    rw
      (
        under_span more o.0.0 o.0.1 (some (clock w).0) h
            (open_query-start otel clock unicode_upper instrumentation ctx sql w kept),
        at_span more o.0.0 o.0.1 h,
      )
      refl
