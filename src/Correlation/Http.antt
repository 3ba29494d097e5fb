-- ===== src/Correlation/Http.antt =====
-- correlation/correlation.go: FromHTTPHeader, SetHTTPHeaders and HTTPHeaders.
pub mod Laws
use gklog.Base.{ℕ, List, [], ◌∷◌, Option, none, some, if◌then◌else◌, is_empty, not}
use gklog.Base.{Bool}
use gklog.Text.{Bytes}
use gklog.Text.Trim.{trim_space}
use gklog.NetHttp.{Entries, Header, header_get, set}
use gklog.Correlation.Ident.{Draw}
use gklog.Correlation.Context.{Context, traceparent, new_context}
use gklog.Correlation.Adopt.{
  header_request_id, header_trace_id, header_span_id, header_parent_span_id, header_traceparent,
  adopt,
}

-- `if id := …; id != "" { corr.RequestID = id }`
adopt_request : Bytes → Context → Context
adopt_request id c = if not (is_empty id) then record c { request_id = id } else c

unfoldable pub from_http_header : Draw → Header → Bytes → ℕ → Context × ℕ
unfolding adopt_request
from_http_header draw header request_id k =
    let (c, k') = new_context draw request_id k in
    adopt draw (header_get header header_traceparent)
      (trim_space (header_get header header_trace_id))
      (trim_space (header_get header header_span_id))
      (trim_space (header_get header header_parent_span_id))
      (adopt_request (trim_space (header_get header header_request_id)) c) k'

-- `if field != "" { header.Set(key, field) }`
set_field : Bytes → Bytes → Entries → Entries
set_field key field h = if not (is_empty field) then set h key field else h

set_fields : Context → Entries → Entries
set_fields c h = set_field header_traceparent (traceparent c) (
    set_field header_parent_span_id c.parent_span_id (
      set_field header_span_id c.span_id
        (set_field header_trace_id c.trace_id (set_field header_request_id c.request_id h))))

-- The header is written in place: the result is what it then holds.
unfoldable pub set_http_headers : Context → Header → Header
unfolding set_field set_fields
set_http_headers c none = none
set_http_headers c (some h) = some (set_fields c h)

unfoldable pub http_headers : Context → Header
unfolding set_http_headers
http_headers c = set_http_headers c (some [])
