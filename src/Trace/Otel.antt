-- ===== src/Trace/Otel.antt =====
-- The OpenTelemetry API, which is no part of this repository, as an interface, with Tracer and
-- StartSpan of trace/setup.go. A span is a number; a context that OpenTelemetry derives keeps the
-- values under the keys of other packages.
use gklog.Base.{ℕ, List, Option, none, some, ◌≡◌, if◌then◌else◌, is_empty}
use gklog.Base.Int.{ℤ}
use gklog.Text.{Bytes, codes}
use gklog.Errors.{Error}
use gklog.NetHttp.{Header}
use gklog.Trace.Ids.{Chain, SpanIds, request_id_of}

-- attribute.KeyValue
pub data TagValue : Type 0 where
  string : Bytes → TagValue
  int : ℤ → TagValue

pub record Tag : Type 0 where
  pub key : Bytes
  pub value : TagValue

pub data SpanKind : Type 0 where
  internal server client : SpanKind

pub data StatusCode : Type 0 where
  error ok : StatusCode

pub record Otel (W : Type 0) : Type 0 where
  pub span_ids : SpanIds
  pub extract : Header → Chain → Chain
  pub start : (tracer name : Bytes) → SpanKind → List Tag → Chain → W → (Chain × ℕ) × W
  pub set_attributes : ℕ → List Tag → W → W
  pub set_status : ℕ → StatusCode → Bytes → W → W
  pub record_error : ℕ → Error → W → W
  pub end_span : ℕ → W → W

pub record IsOtel {W : Type 0} (otel : Otel W) : Type 0 where
  pub extract-request_id :
      (h : Header) (ctx : Chain) → request_id_of (otel.extract h ctx) ≡ request_id_of ctx
  pub start-request_id :
      (tracer name : Bytes) (kind : SpanKind) (tags : List Tag) (ctx : Chain) (w : W)
      → request_id_of (otel.start tracer name kind tags ctx w).0.0 ≡ request_id_of ctx

abbrev pub default_instrumentation_name : Bytes
default_instrumentation_name = codes "goodkind.io/gklog/trace"

-- The name that Tracer uses, from what the variable instrumentationName holds.
unfoldable pub tracer_name : Option Bytes → Bytes
tracer_name none = default_instrumentation_name
tracer_name (some name) = if is_empty name then default_instrumentation_name else name

unfoldable pub start_span :
    {W : Type 0} → Otel W → Option Bytes → Bytes → SpanKind → List Tag → Chain → W → (Chain × ℕ) × W
unfolding tracer_name
start_span otel instrumentation name kind tags ctx w =
    otel.start (tracer_name instrumentation) name kind tags ctx w
