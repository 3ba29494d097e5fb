-- ===== src/Trace/Query.antt =====
-- trace/pgx.go: QueryTracer. The logger's methods Error and Debug log with the background context.
pub mod Laws
pub mod Journal
use gklog.Base.{ℕ, List, [], ◌∷◌, ◌++◌, Option, none, some, Bool, true, false, ◌≡◌, refl, ◌∙◌}
use gklog.Base.Int.{ℤ}
use gklog.Text.{Bytes, codes}
use gklog.Text.Case.{to_upper}
use gklog.Text.Fields.{fields}
use gklog.Time.{sub_time, milliseconds}
use gklog.Errors.{Error, error_text}
use gklog.Slog.{Attr, scalar, string_attr, HandlerOps, level_error, level_debug}
use gklog.Slog.Loggers.{Runtime, State, log_attrs}
use gklog.Ctx.{Binding, correlation, logger, request_id, query_start, query_span, foreign}
use gklog.Logger.{logger_from_context}
use gklog.Trace.Ids.{Chain}
use gklog.Trace.Op.{int_attr}
use gklog.Trace.Otel.{Tag, string, int, client, ok, error, SpanKind, Otel, start_span}

-- The first word of a query, in upper case.
abbrev operation_of : (Bytes → Bytes) → List Bytes → Bytes
operation_of unicode_upper [] = codes "unknown"
operation_of unicode_upper (word ∷ words) = to_upper unicode_upper word

unfoldable pub query_operation : (Bytes → Bytes) → Bytes → Bytes
query_operation unicode_upper sql = operation_of unicode_upper (fields sql)

-- The newest values under the two keys.
unfoldable pub query_start_of : Chain → Option ℕ
query_start_of [] = none
query_start_of (query_start t ∷ ctx) = some t
query_start_of (query_span s ∷ ctx) = query_start_of ctx
query_start_of (correlation c ∷ ctx) = query_start_of ctx
query_start_of (logger l ∷ ctx) = query_start_of ctx
query_start_of (request_id id ∷ ctx) = query_start_of ctx
query_start_of (foreign n v ∷ ctx) = query_start_of ctx

unfoldable pub query_span_of : Chain → Option ℕ
query_span_of [] = none
query_span_of (query_span s ∷ ctx) = some s
query_span_of (query_start t ∷ ctx) = query_span_of ctx
query_span_of (correlation c ∷ ctx) = query_span_of ctx
query_span_of (logger l ∷ ctx) = query_span_of ctx
query_span_of (request_id id ∷ ctx) = query_span_of ctx
query_span_of (foreign n v ∷ ctx) = query_span_of ctx

-- pgx.TraceQueryEndData
pub record EndData : Type 0 where
  pub command_tag : Bytes
  pub rows_affected : ℤ
  pub err : Option Error

-- The zero time, from which times are counted, stands for a start that is missing.
abbrev or_zero : Option ℕ → ℕ
or_zero none = 0
or_zero (some t) = t

module _ {W : Type 0} (otel : Otel W) (clock : W → ℕ × W) (unicode_upper : Bytes → Bytes) where
  -- The start time goes on the context, and the span is started from there.
  pub open_query : Option Bytes → Chain → (sql : Bytes) → W → (Chain × ℕ) × W
  unfolding query_operation
  open_query instrumentation ctx sql w =
      let (t, w1) = clock w in
      start_span otel instrumentation (codes "db.query") client
        (record { key = codes "db.operation"; value = string (query_operation unicode_upper sql) }
          ∷ [])
        (query_start t ∷ ctx) w1

  unfoldable pub trace_query_start : Option Bytes → Chain → (sql : Bytes) → W → Chain × W
  unfolding open_query
  trace_query_start instrumentation ctx sql w =
      let ((ctx', span), w') = open_query instrumentation ctx sql w in (query_span span ∷ ctx', w')

module _ {H W : Type 0} (ops : HandlerOps H W) (rt : Runtime W) (otel : Otel W) (clock : W → ℕ × W)
    (duration_text : ℤ → Bytes) where
  set_outcome : ℕ → Option Error → W → W
  set_outcome span none w = otel.set_status span ok (codes "ok") w
  set_outcome span (some e) w =
      otel.set_status span error (error_text e) (otel.record_error span e w)

  -- The block for a span that is not nil.
  close_span : Option ℕ → EndData → ℤ → W → W
  unfolding set_outcome
  close_span none d latency w = w
  close_span (some span) d latency w = otel.end_span span (
      set_outcome span d.err (
        otel.set_attributes span
          (record { key = codes "db.response.command_tag"; value = string d.command_tag }
            ∷ record { key = codes "db.response.rows_affected"; value = int d.rows_affected }
            ∷ record { key = codes "db.query.duration_ms"; value = int (milliseconds latency) }
            ∷ [])
          w))

  abbrev latency_attr : ℤ → Attr
  latency_attr latency = record {
    key = codes "latency";
    value = scalar (duration_text latency) (duration_text latency);
  }

  log_query : ℕ → EndData → ℤ → Option Error → State H W → State H W
  log_query l d latency (some e) st =
      log_attrs ops rt l (some []) level_error (codes "db query")
        (string_attr (codes "sql") d.command_tag
          ∷ latency_attr latency
          ∷ record { key = codes "err"; value = scalar (error_text e) (error_text e) }
          ∷ [])
        st
  log_query l d latency none st =
      log_attrs ops rt l (some []) level_debug (codes "db query")
        (string_attr (codes "sql") d.command_tag
          ∷ latency_attr latency
          ∷ int_attr (codes "rows") d.rows_affected
          ∷ [])
        st

  -- What TraceQueryEnd does from a start and a span.
  pub end_query : (start : ℕ) → Option ℕ → (log : ℕ) → EndData → State H W → State H W
  unfolding close_span log_query
  end_query start span l d (heap, w) =
      let (t, w1) = clock w in
      let latency = sub_time t start in
      log_query l d latency d.err (heap, close_span span d latency w1)

  unfoldable pub trace_query_end : Chain → EndData → State H W → State H W
  unfolding end_query
  trace_query_end ctx d st =
      end_query (or_zero (query_start_of ctx)) (query_span_of ctx)
        (logger_from_context 0 (some ctx)) d st
