-- ===== src/Tests/Carriers.antt =====
-- The theorems on headers, metadata and log attributes, applied.
use gklog.Base.{is_empty, List, [], ◌∷◌, ◌++◌, some, true, ◌||◌, ◌≡◌, refl}
use gklog.Text.{Bytes, codes}
use gklog.Text.Keys.{has, distinct, apart}
use gklog.NetHttp.{Header}
use gklog.Slog.{Attr, keys}
use gklog.Correlation.Ident.{valid_trace_id, valid_span_id}
use gklog.Correlation.Context.{valid, traceparent}
use gklog.Correlation.Attrs.{attrs_of, append_attrs}
use gklog.Correlation.Attrs.Laws.{append_attrs_extends}
use gklog.Correlation.Adopt.Laws.{IsSound}
use gklog.Correlation.Http.{from_http_header, http_headers}
use gklog.Correlation.Http.Laws.{from_http_header-http_headers, from_http_header-IsSound}
use gklog.Correlation.Grpc.{
  from_metadata, metadata_of, set_metadata, new_outgoing_context, from_incoming_metadata,
}
use gklog.Text.Trim.{trim_space}
use gklog.Text.Case.{to_lower_ascii}
use gklog.Ctx.{Ctx}
use gklog.Correlation.Grpc.Plain.{is_sendable}
use gklog.Correlation.Grpc.Call.{caller_of, call-received}
use gklog.Correlation.Carry.{from_context}
use gklog.Correlation.Grpc.Laws.{from_metadata-metadata_of}
use gklog.Correlation.Http.Laws as HttpLaws
use gklog.Correlation.Grpc.Laws as GrpcLaws
use gklog.Tests.World.{
  sevens, calling, wire, on_server, outgoing_of, wire-IsTransport, sevens-IsSource, sevens-IsLively,
  trace_a, caller, entry, pairs_md, pairs_md-IsMd,
}

caller-valid : valid caller ≡ true
unfolding valid valid_trace_id valid_span_id
caller-valid = refl

from_http_header-http_headers_example :
    from_http_header sevens (http_headers caller) (codes "mine") 0
    ≡ (HttpLaws.received sevens caller (codes "mine") 0, 4)
from_http_header-http_headers_example =
    from_http_header-http_headers sevens caller (codes "mine") 0 caller-valid

from_metadata-metadata_of_example :
    from_metadata pairs_md sevens (metadata_of pairs_md caller) 0
    ≡ (GrpcLaws.received sevens caller 0, 4)
from_metadata-metadata_of_example =
    from_metadata-metadata_of pairs_md pairs_md-IsMd sevens caller 0 caller-valid

abbrev spoofed : Header
spoofed =
    some ((codes "Traceparent", codes "00-0-0-0" ∷ []) ∷ (codes "X-Trace-Id", trace_a ∷ []) ∷ [])

from_http_header-IsSound_example : IsSound (from_http_header sevens spoofed [] 3).0
from_http_header-IsSound_example =
    from_http_header-IsSound sevens sevens-IsSource sevens-IsLively spoofed [] 3

append_attrs_extends_example :
    ((added : List Attr) × (append_attrs entry.attrs caller ≡ entry.attrs ++ added)
      × (apart (keys entry.attrs) (keys added) ≡ true))
    × ((k : Bytes)
        → has k (keys (append_attrs entry.attrs caller))
          ≡ (has k (keys entry.attrs) || has k (keys (attrs_of caller))))
    × (distinct (keys (append_attrs entry.attrs caller)) ≡ true)
append_attrs_extends_example = append_attrs_extends entry.attrs caller

caller-may_call : (is_empty (from_context calling).trace_id || valid (from_context calling)) ≡ true
unfolding from_context valid valid_trace_id valid_span_id
caller-may_call = refl

caller-is_sendable : is_sendable (caller_of sevens calling 0) ≡ true
unfolding from_context trim_space
caller-is_sendable = refl

-- The context of the server's handler.
abbrev served : Ctx
served = on_server (metadata_of pairs_md caller)

call_arrives : wire (new_outgoing_context pairs_md sevens calling 0).0 ≡ some served
unfolding pairs_md wire outgoing_of new_outgoing_context from_context metadata_of set_metadata
    trim_space to_lower_ascii traceparent valid valid_trace_id valid_span_id
call_arrives = refl

call-received_example :
    (from_context (new_outgoing_context pairs_md sevens calling 0).0 ≡ caller_of sevens calling 0)
    × (valid (caller_of sevens calling 0) ≡ true)
    × (from_incoming_metadata pairs_md sevens served 3
        ≡ (GrpcLaws.received sevens (caller_of sevens calling 0) 3, 7))
call-received_example =
    call-received pairs_md pairs_md-IsMd wire wire-IsTransport sevens sevens-IsSource
      sevens-IsLively sevens calling served 0 3 caller-may_call caller-is_sendable call_arrives
