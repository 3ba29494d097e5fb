-- ===== src/Correlation/Http/Laws.antt =====
-- What a receiver reads from the headers that a sender wrote.
use gklog.Base.{
  ℕ, suc, [], ◌∷◌, some, true, ◌≡◌, refl, inl, inr, arith, if◌then◌else◌, is_empty, Bool-cases,
}
use gklog.Text.{Bytes, same}
use gklog.Text.Trim.{trim_space}
use gklog.Text.Hex.{trim_space-hex}
use gklog.NetHttp.{Entries, Header, get, get-set, canonical}
use gklog.Correlation.Ident.{Draw, IsSource, valid_span_id, new_trace_id, new_span_id}
use gklog.Correlation.Ident.Traceparent.{trace_id-is_lower_hex, span_id-is_lower_hex}
use gklog.Correlation.Context.{Context, valid, traceparent, new_context}
use gklog.Correlation.Context.Span.{IsLively, valid_parts, new_context-valid}
use gklog.Correlation.Adopt.{
  header_request_id, header_trace_id, header_span_id, header_parent_span_id, header_traceparent,
}
use gklog.Correlation.Adopt.Laws.{IsSound, adopt-IsSound, adopt-of_valid}
use gklog.Correlation.Http.{adopt_request, from_http_header, set_field, set_fields, http_headers}

-- A field is read back, an empty one as what was there.
get-set_field :
    (h : Entries) (j k v : Bytes)
    → get (set_field j v h) k
      ≡ (if same (canonical j) (canonical k) then (if is_empty v then get h k else v) else get h k)
unfolding set_field
get-set_field h j k v = ground (arith, get-set h j k v)

-- The values of the five headers are those of `c`.
record Carries (h : Entries) (c : Context) : Type 0 where
  request : get h header_request_id ≡ c.request_id
  trace : get h header_trace_id ≡ c.trace_id
  span : get h header_span_id ≡ c.span_id
  parent : get h header_parent_span_id ≡ c.parent_span_id
  tp : get h header_traceparent ≡ traceparent c

or_empty : (v : Bytes) → (if is_empty v then [] else v) ≡ v
or_empty [] = refl
or_empty (c ∷ v) = refl

get-nil : (k : Bytes) → get [] k ≡ []
unfolding get
get-nil k = refl

set_fields-Carries : (c : Context) → Carries (set_fields c []) c
unfolding set_fields canonical
set_fields-Carries c = record {
  request = simp get-set_field (simp get-nil (or_empty c.request_id));
  trace = simp get-set_field (simp get-nil (or_empty c.trace_id));
  span = simp get-set_field (simp get-nil (or_empty c.span_id));
  parent = simp get-set_field (simp get-nil (or_empty c.parent_span_id));
  tp = simp get-set_field (simp get-nil (or_empty (traceparent c)));
}

-- What the receiver of a valid sender's headers builds; `trimmed` is the sender's parent span and
-- `request` the sender's request identifier, without white space around them.
abbrev pub received : Draw → Context → Bytes → ℕ → Context
received draw sender request_id k =
    let parent = trim_space sender.parent_span_id in
    let request = trim_space sender.request_id in
    record {
      trace_id = sender.trace_id;
      span_id = (new_span_id draw (suc (suc (suc k)))).0;
      parent_span_id = if valid_span_id parent then parent else sender.span_id;
      request_id = if is_empty request then trim_space request_id else request;
      identity_attributes = [];
    }

-- The request identifier of the header, if it has one, goes on top of the fresh context.
request_of :
    (draw : Draw) (request_id request : Bytes) (k n : ℕ) (trace span parent : Bytes)
    → ◌≡◌ {A = Context × ℕ}
        (
          record (adopt_request request (new_context draw request_id k).0) {
            trace_id = trace;
            span_id = span;
            parent_span_id = parent;
          },
          n,
        )
        (
          record {
            trace_id = trace;
            span_id = span;
            parent_span_id = parent;
            request_id = if is_empty request then trim_space request_id else request;
            identity_attributes = [];
          },
          n,
        )
unfolding adopt_request new_context
request_of draw request_id request k n trace span parent = elim (Bool-cases (is_empty request)) [
  | inl e ↦ rw e
  | inr e ↦ rw e
]

from_fields :
    (draw : Draw) (c : Context) (h : Entries) (request_id : Bytes) (k : ℕ)
    → valid c ≡ true
    → Carries h c
    → from_http_header draw (some h) request_id k
      ≡ (received draw c request_id k, suc (suc (suc (suc k))))
unfolding from_http_header new_context new_trace_id new_span_id
from_fields draw c h request_id k v f =
    let (ht, hs) = valid_parts c v in
    rw
      (
        f.request,
        f.trace,
        f.span,
        f.parent,
        f.tp,
        trim_space-hex c.trace_id (trace_id-is_lower_hex c.trace_id ht),
        trim_space-hex c.span_id (span_id-is_lower_hex c.span_id hs),
        adopt-of_valid draw c _ (trim_space c.parent_span_id) _ v,
      )
      (request_of draw request_id (trim_space c.request_id) k _ _ _ _)

-- A receiver that parses the headers of a valid sender gets the sender's trace, a fresh span, the
-- sender's request identifier (or its own if that is blank), and as its parent the sender's span if
-- the sender has no well-formed parent span itself; if it has one, that is the receiver's parent too.
pub from_http_header-http_headers :
    (draw : Draw) (c : Context) (request_id : Bytes) (k : ℕ)
    → valid c ≡ true
    → from_http_header draw (http_headers c) request_id k
      ≡ (received draw c request_id k, suc (suc (suc (suc k))))
unfolding http_headers
from_http_header-http_headers draw c request_id k v =
    from_fields draw c (set_fields c []) request_id k v (set_fields-Carries c)

module _ (draw : Draw) (source : IsSource draw) (lively : IsLively draw) where
  new_context-IsSound : (request_id : Bytes) (k : ℕ) → IsSound (new_context draw request_id k).0
  new_context-IsSound request_id k =
      let (ht, hs) = valid_parts _ (new_context-valid draw source lively request_id k) in
      record { trace_ok = ht; span_ok = hs; parent_ok = inl (unfold new_context in refl) }

  adopt_request-IsSound : (id : Bytes) (c : Context) → IsSound c → IsSound (adopt_request id c)
  unfolding adopt_request
  adopt_request-IsSound id c h = ground arith

  -- Whatever the header holds, a nil one included, the context that is built from it is valid, and
  -- its parent span is missing or well formed, if the random source works and gives no zeros.
  pub from_http_header-IsSound :
      (header : Header) (request_id : Bytes) (k : ℕ)
      → IsSound (from_http_header draw header request_id k).0
  unfolding from_http_header
  from_http_header-IsSound header request_id k =
      adopt-IsSound draw source lively _ _ _ _ _ _
        (adopt_request-IsSound _ _ (new_context-IsSound request_id k))
