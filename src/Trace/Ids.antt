-- ===== src/Trace/Ids.antt =====
-- trace/context.go: the request identifier on a context, and loggers with the identifiers. A context
-- that is not nil is its chain; context.WithValue panics on a nil one.
use gklog.Base.{ℕ, List, [], ◌∷◌, ◌++◌, Option, none, some, not, if◌then◌else◌, is_empty}
use gklog.Text.{Bytes, codes}
use gklog.Slog.{Attr, string_attr, HandlerOps}
use gklog.Slog.Loggers.{State, logger_with}
use gklog.Ctx.{Binding, correlation, logger, request_id, query_start, query_span, foreign}
use gklog.Logger.{logger_from_context}

abbrev pub Chain : Type 0
Chain = List Binding

abbrev pub request_id_header : Bytes
request_id_header = codes "X-Request-ID"

-- OpenTelemetry: the trace and span identifiers of a valid span context, as its String methods
-- render them.
abbrev pub SpanIds : Type 0
SpanIds = Chain → Option (Bytes × Bytes)

unfoldable pub with_request_metadata : Chain → Bytes → Chain
with_request_metadata ctx id = request_id id ∷ ctx

unfoldable pub request_id_of : Chain → Bytes
request_id_of [] = []
request_id_of (request_id id ∷ ctx) = id
request_id_of (correlation c ∷ ctx) = request_id_of ctx
request_id_of (logger l ∷ ctx) = request_id_of ctx
request_id_of (query_start t ∷ ctx) = request_id_of ctx
request_id_of (query_span s ∷ ctx) = request_id_of ctx
request_id_of (foreign n v ∷ ctx) = request_id_of ctx

abbrev trace_part : Option (Bytes × Bytes) → Bytes
trace_part none = []
trace_part (some (trace, span)) = trace

abbrev span_part : Option (Bytes × Bytes) → Bytes
span_part none = []
span_part (some (trace, span)) = span

unfoldable pub id_from_context : SpanIds → Chain → Bytes
id_from_context ids ctx = trace_part (ids ctx)

unfoldable pub span_id_from_context : SpanIds → Chain → Bytes
span_id_from_context ids ctx = span_part (ids ctx)

-- `if id := …; id != "" { append }`
abbrev pub if_present : Bytes → Bytes → List Attr
if_present key id = if not (is_empty id) then string_attr key id ∷ [] else []

-- The attributes of LoggerWithContext.
unfoldable pub logger_attrs : SpanIds → Chain → List Attr → List Attr
unfolding request_id_of id_from_context span_id_from_context
logger_attrs ids ctx attrs =
    if_present (codes "request_id") (request_id_of ctx)
    ++ (if_present (codes "trace_id") (id_from_context ids ctx)
        ++ (if_present (codes "span_id") (span_id_from_context ids ctx) ++ attrs))

-- gklog.WithLogger on a context that is not nil
abbrev pub store_logger : Chain → ℕ → Chain
store_logger ctx l = logger (some l) ∷ ctx

module _ {H W : Type 0} (ops : HandlerOps H W) (ids : SpanIds) where
  unfoldable pub logger_with_context : Chain → ℕ → List Attr → State H W → ℕ × State H W
  unfolding logger_attrs
  logger_with_context ctx base attrs st = logger_with ops base (logger_attrs ids ctx attrs) st

  unfoldable pub with_trace_logger : Chain → List Attr → State H W → Chain × State H W
  unfolding logger_with_context
  with_trace_logger ctx attrs st =
      let (l, st') = logger_with_context ctx (logger_from_context 0 (some ctx)) attrs st in
      (store_logger ctx l, st')
