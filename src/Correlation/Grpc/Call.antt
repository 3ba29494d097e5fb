-- ===== src/Correlation/Grpc/Call.antt =====
-- A call from end to end: what NewOutgoingContext attaches on the client's side, and what
-- FromIncomingMetadata reads on the server's. The transport between them is no part of this
-- repository: a call may fail, keys may be added, and plain values under all other keys arrive.
use gklog.Base.{
  ℕ, suc, [], ◌∷◌, Option, some, Bool, true, false, not, ◌&&◌, ◌||◌, ◌≡◌, refl, ◌∙◌, arith,
  if◌then◌else◌, is_empty, all, Bool-cases, inl, inr,
}
use gklog.Text.{Bytes}
use gklog.Text.Case.{is_ascii, to_lower_ascii, to_lower_ascii-is_ascii}
use gklog.Ctx.{Ctx}
use gklog.Metadata.{MdOps, IsMd}
use gklog.Correlation.Ident.{Draw, IsSource}
use gklog.Correlation.Context.{Context, valid}
use gklog.Correlation.Context.Span.{IsLively}
use gklog.Correlation.Carry.{from_context, ensure}
use gklog.Correlation.Carry.Laws.{carried, ensure-valid}
use gklog.Correlation.Adopt.{
  header_request_id, header_trace_id, header_span_id, header_parent_span_id, header_traceparent,
}
use gklog.Correlation.Grpc.{
  first_metadata, metadata_of, from_incoming_metadata, new_outgoing_context,
}
use gklog.Correlation.Grpc.Plain.{IsPlain, is_sendable, metadata_of-IsPlain}
use gklog.Correlation.Grpc.Laws.{Carries, metadata_of-Carries, from_carried, received}

-- The keys of the program do not belong to the transport.
abbrev pub are_free : (Bytes → Bool) → Bool
are_free reserved =
    all (λ k. not (reserved k) && not (reserved (to_lower_ascii k)))
      (header_request_id ∷ header_trace_id ∷ header_span_id ∷ header_parent_span_id
        ∷ header_traceparent ∷ [])

-- `deliver` makes the context of a server's handler from the one that a call was made with; `none` if
-- the call does not reach the server.
pub record IsTransport {MD : Type 0} (ops : MdOps MD) (deliver : Ctx → Option Ctx) : Type 0 where
  pub reserved : Bytes → Bool
  pub free : are_free reserved ≡ true
  pub arrives :
      (ctx server : Ctx) (md : MD)
      → deliver (ops.outgoing ctx md) ≡ some server
      → IsPlain ops md
      → (md' : MD) × (ops.incoming server ≡ some md')
        × ((k : Bytes) → all is_ascii k ≡ true → reserved k ≡ false → ops.get md' k ≡ ops.get md k)
  -- The context that NewOutgoingContext of the metadata package derives keeps the values of others.
  pub outgoing-correlation :
      (ctx : Ctx) (md : MD) → from_context (ops.outgoing ctx md) ≡ from_context ctx

free_parts :
    (reserved : Bytes → Bool)
    → are_free reserved ≡ true
    → let free = λ (k : Bytes). not (reserved k) && not (reserved (to_lower_ascii k)) in
      (free header_request_id ≡ true)
      × (free header_trace_id ≡ true)
      × (free header_span_id ≡ true)
      × (free header_parent_span_id ≡ true)
      × (free header_traceparent ≡ true)
free_parts reserved h = (ground arith, ground arith, ground arith, ground arith, ground arith)

-- The correlation that a call is made with: the one on the context, or a new one.
abbrev pub caller_of : Draw → Ctx → ℕ → Context
caller_of draw ctx k =
    if is_empty (from_context ctx).trace_id then (ensure draw ctx [] k).0.1 else from_context ctx

module _ {MD : Type 0} (ops : MdOps MD) (laws : IsMd ops) (deliver : Ctx → Option Ctx)
    (transport : IsTransport ops deliver) where
  first_metadata-same :
      (md md' : MD) (k : Bytes)
      → ops.get md' k ≡ ops.get md k
      → ops.get md' (to_lower_ascii k) ≡ ops.get md (to_lower_ascii k)
      → first_metadata ops md' k ≡ first_metadata ops md k
  unfolding first_metadata
  first_metadata-same md md' k e f = rw (e, f) refl

  -- A key of the program is read on the server's side as on the client's.
  key_delivered :
      (md md' : MD) (k : Bytes)
      → ((j : Bytes)
          → all is_ascii j ≡ true
          → transport.reserved j ≡ false
          → ops.get md' j ≡ ops.get md j)
      → all is_ascii k ≡ true
      → (not (transport.reserved k) && not (transport.reserved (to_lower_ascii k))) ≡ true
      → first_metadata ops md' k ≡ first_metadata ops md k
  key_delivered md md' k kept a free =
      first_metadata-same md md' k (kept k a (ground arith))
        (kept (to_lower_ascii k) (to_lower_ascii-is_ascii k a) (ground arith))

  -- The server's metadata carries what the client's did.
  delivered-Carries :
      (c : Context) (md : MD)
      → ((j : Bytes)
          → all is_ascii j ≡ true
          → transport.reserved j ≡ false
          → ops.get md j ≡ ops.get (metadata_of ops c) j)
      → Carries ops laws md c
  delivered-Carries c md kept =
      let sent = metadata_of-Carries ops laws c in
      let (q, t, s, p, tp) = free_parts transport.reserved transport.free in
      record {
        request = key_delivered _ md header_request_id kept refl q ∙ sent.request;
        trace = key_delivered _ md header_trace_id kept refl t ∙ sent.trace;
        span = key_delivered _ md header_span_id kept refl s ∙ sent.span;
        parent = key_delivered _ md header_parent_span_id kept refl p ∙ sent.parent;
        tp = key_delivered _ md header_traceparent kept refl tp ∙ sent.tp;
      }

  -- The server's side of a call that was made with the metadata of a valid correlation.
  incoming-received :
      (draw : Draw) (ctx server : Ctx) (c : Context) (j : ℕ)
      → valid c ≡ true
      → is_sendable c ≡ true
      → deliver (ops.outgoing ctx (metadata_of ops c)) ≡ some server
      → from_incoming_metadata ops draw server j ≡ (received draw c j, suc (suc (suc (suc j))))
  unfolding from_incoming_metadata
  incoming-received draw ctx server c j v s d =
      let (md, arrived, kept) =
        transport.arrives ctx server (metadata_of ops c) d (metadata_of-IsPlain ops laws c v s) in
      rw (arrived, from_incoming_metadata)
        (from_carried ops laws draw c md j v (delivered-Carries c md kept))

  -- A call on a context without a trace, or with a valid correlation, whose request identifier and
  -- parent are printable ASCII, whatever keys the transport adds: NewOutgoingContext returns a
  -- context that carries a valid correlation, the one that was there or a new one; and the server,
  -- if the call reaches it, reads its trace, its request identifier, and its span as the parent,
  -- or its parent if that is well formed, with a fresh span.
  pub call-received :
      (draw : Draw) (source : IsSource draw) (lively : IsLively draw) (server_draw : Draw)
      (ctx server : Ctx) (k j : ℕ)
      → (is_empty (from_context ctx).trace_id || valid (from_context ctx)) ≡ true
      → is_sendable (caller_of draw ctx k) ≡ true
      → deliver (new_outgoing_context ops draw ctx k).0 ≡ some server
      → (from_context (new_outgoing_context ops draw ctx k).0 ≡ caller_of draw ctx k)
        × (valid (caller_of draw ctx k) ≡ true)
        × (from_incoming_metadata ops server_draw server j
            ≡ (received server_draw (caller_of draw ctx k) j, suc (suc (suc (suc j)))))
  unfolding new_outgoing_context
  call-received draw source lively server_draw ctx server k j h s d =
      elim (Bool-cases (is_empty (from_context ctx).trace_id)) [
        | inl e ↦
            let v = ensure-valid draw source lively ctx [] k e in
            rw e (
              transport.outgoing-correlation _ _ ∙ carried draw source ctx [] k,
              v,
              incoming-received server_draw _ server _ j v (rw e at s) (rw e at d),
            )
        | inr e ↦
            let v : valid (from_context ctx) ≡ true = rw e at h in
            rw e (
              transport.outgoing-correlation _ _,
              v,
              incoming-received server_draw _ server _ j v (rw e at s) (rw e at d),
            )
      ]
