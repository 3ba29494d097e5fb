-- ===== src/Correlation/Grpc.antt =====
-- correlation/correlation.go: Metadata, fromMetadata, FromIncomingMetadata and NewOutgoingContext,
-- over the interface of the metadata package.
pub mod Laws
pub mod Plain
pub mod Call
use gklog.Base.{ℕ, List, [], ◌∷◌, Option, none, some, if◌then◌else◌, is_empty, not}
use gklog.Text.{Bytes}
use gklog.Text.Trim.{trim_space}
use gklog.Text.Case.{to_lower_ascii}
use gklog.Ctx.{Ctx}
use gklog.Metadata.{MdOps}
use gklog.Correlation.Ident.{Draw}
use gklog.Correlation.Context.{Context, traceparent, new_context}
use gklog.Correlation.Carry.{from_context, ensure}
use gklog.Correlation.Adopt.{
  header_request_id, header_trace_id, header_span_id, header_parent_span_id, header_traceparent,
  adopt,
}

-- `values[0]`, trimmed, or "" if there is none.
abbrev first_trimmed : List Bytes → Bytes
first_trimmed [] = []
first_trimmed (v ∷ vs) = trim_space v

module _ {MD : Type 0} (ops : MdOps MD) where
  unfoldable pub first_metadata : MD → Bytes → Bytes
  first_metadata md key =
      let values = ops.get md (to_lower_ascii key) in
      first_trimmed (if is_empty values then ops.get md key else values)

  unfoldable pub set_metadata : MD → Bytes → Bytes → MD
  set_metadata md key value =
      if is_empty (trim_space value)
      then md
      else ops.set md (to_lower_ascii key) (trim_space value ∷ [])

  unfoldable pub metadata_of : Context → MD
  metadata_of c =
      let a = set_metadata ops.empty header_request_id c.request_id in
      let b = set_metadata a header_trace_id c.trace_id in
      let d = set_metadata b header_span_id c.span_id in
      let e = set_metadata d header_parent_span_id c.parent_span_id in
      if not (is_empty (traceparent c))
      then set_metadata e header_traceparent (traceparent c)
      else e

  unfoldable pub from_metadata : Draw → MD → ℕ → Context × ℕ
  from_metadata draw md k =
      let (c, k') = new_context draw (first_metadata md header_request_id) k in
      adopt draw (first_metadata md header_traceparent) (first_metadata md header_trace_id)
        (first_metadata md header_span_id) (first_metadata md header_parent_span_id) c k'

  unfoldable pub from_incoming_metadata : Draw → Ctx → ℕ → Context × ℕ
  from_incoming_metadata draw ctx k = elim (ops.incoming ctx) [
    | none ↦ new_context draw [] k
    | some md ↦ from_metadata draw md k
  ]

  -- The `if` of NewOutgoingContext.
  outgoing_pair : Draw → Ctx → ℕ → (Ctx × Context) × ℕ
  outgoing_pair draw ctx k =
      if is_empty (from_context ctx).trace_id
      then ensure draw ctx [] k
      else ((ctx, from_context ctx), k)

  unfoldable pub new_outgoing_context : Draw → Ctx → ℕ → Ctx × ℕ
  unfolding outgoing_pair
  new_outgoing_context draw ctx k =
      let ((ctx', c), k') = outgoing_pair draw ctx k in (ops.outgoing ctx' (metadata_of c), k')
