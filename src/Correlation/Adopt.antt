-- ===== src/Correlation/Adopt.antt =====
-- correlation/correlation.go: how FromHTTPHeader and fromMetadata take over inbound identifiers. The
-- two functions make the same four steps on the values that they read.
pub mod Laws
use gklog.Base.{ℕ, List, [], ◌∷◌, Option, none, some, if◌then◌else◌, is_empty, not, String}
use gklog.Text.{Bytes, codes}
use gklog.Correlation.Ident.{Draw, valid_trace_id, valid_span_id, parse_traceparent, new_span_id}
use gklog.Correlation.Context.{Context}

abbrev pub header_request_id : Bytes
header_request_id = codes "X-Request-Id"

abbrev pub header_trace_id : Bytes
header_trace_id = codes "X-Trace-Id"

abbrev pub header_span_id : Bytes
header_span_id = codes "X-Span-Id"

abbrev pub header_parent_span_id : Bytes
header_parent_span_id = codes "X-Parent-Span-Id"

abbrev pub header_traceparent : Bytes
header_traceparent = codes "Traceparent"

-- `corr.ParentSpanID = span; corr.SpanID = NewSpanID()`
remote_span : Draw → Bytes → Context → ℕ → Context × ℕ
remote_span draw span c k =
    let (fresh, k') = new_span_id draw k in
    (record c { parent_span_id = span; span_id = fresh }, k')

adopt_traceparent : Draw → Option (Bytes × Bytes) → Context → ℕ → Context × ℕ
adopt_traceparent draw none c k = (c, k)
adopt_traceparent draw (some (trace, span)) c k =
    remote_span draw span (record c { trace_id = trace }) k

adopt_trace : Bytes → Context → Context
adopt_trace trace c = if valid_trace_id trace then record c { trace_id = trace } else c

adopt_span : Draw → Bytes → Context → ℕ → Context × ℕ
adopt_span draw span c k = if valid_span_id span then remote_span draw span c k else (c, k)

adopt_parent : Bytes → Context → Context
adopt_parent parent c = if valid_span_id parent then record c { parent_span_id = parent } else c

-- The steps in their order, on the values read from the four fields.
unfoldable pub adopt : Draw → (tp trace span parent : Bytes) → Context → ℕ → Context × ℕ
unfolding remote_span adopt_traceparent adopt_trace adopt_span adopt_parent
adopt draw tp trace span parent c k =
    let (c1, k1) = adopt_traceparent draw (parse_traceparent tp) c k in
    let (c2, k2) = adopt_span draw span (adopt_trace trace c1) k1 in (adopt_parent parent c2, k2)
