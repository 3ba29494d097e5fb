-- ===== src/Correlation/Grpc/Laws.antt =====
-- What a receiver reads from the gRPC metadata that a sender wrote.
use gklog.Base.{
  ℕ, suc, List, [], ◌∷◌, true, ◌≡◌, refl, ◌∙◌, arith, if◌then◌else◌, is_empty, not, all,
}
use gklog.Text.{Bytes, same}
use gklog.Text.Trim.{trim_space, trim_space_idem}
use gklog.Text.Hex.{trim_space-hex}
use gklog.Text.Case.{is_ascii, to_lower_ascii, to_lower_ascii_idem, to_lower_ascii-is_ascii}
use gklog.Metadata.{MdOps, IsMd}
use gklog.Correlation.Ident.{Draw, valid_span_id, new_trace_id, new_span_id}
use gklog.Correlation.Ident.Traceparent.{trace_id-is_lower_hex, span_id-is_lower_hex}
use gklog.Correlation.Context.{Context, valid, traceparent, new_context}
use gklog.Correlation.Context.Span.{valid_parts, trim_space-traceparent}
use gklog.Correlation.Adopt.{
  header_request_id, header_trace_id, header_span_id, header_parent_span_id, header_traceparent,
}
use gklog.Correlation.Adopt.Laws.{adopt-of_valid}
use gklog.Correlation.Grpc.{first_metadata, set_metadata, metadata_of, from_metadata}

-- What the receiver of a valid sender's metadata builds.
abbrev pub received : Draw → Context → ℕ → Context
received draw sender k =
    let parent = trim_space sender.parent_span_id in
    record {
      trace_id = sender.trace_id;
      span_id = (new_span_id draw (suc (suc (suc k)))).0;
      parent_span_id = if valid_span_id parent then parent else sender.span_id;
      request_id = trim_space sender.request_id;
      identity_attributes = [];
    }

module _ {MD : Type 0} (ops : MdOps MD) (laws : IsMd ops) where
  -- What is read under a key, before it is trimmed.
  lookup_of : MD → Bytes → List Bytes
  lookup_of md key =
      let values = ops.get md (to_lower_ascii key) in
      if is_empty values then ops.get md key else values

  lookup_of-set :
      (md : MD) (j k v : Bytes)
      → all is_ascii j ≡ true
      → all is_ascii k ≡ true
      → lookup_of (ops.set md (to_lower_ascii j) (v ∷ [])) k
        ≡ (if same (to_lower_ascii j) (to_lower_ascii k) then v ∷ [] else lookup_of md k)
  unfolding lookup_of
  lookup_of-set md j k v aj ak =
      let aj' = to_lower_ascii-is_ascii j aj in
      let ak' = to_lower_ascii-is_ascii k ak in
      ground (
        arith,
        laws.get-set md (to_lower_ascii j) (to_lower_ascii k) v aj' ak',
        laws.get-set md (to_lower_ascii j) k v aj' ak,
        to_lower_ascii_idem j,
        to_lower_ascii_idem k,
      )

  first_metadata-set_metadata :
      (md : MD) (j k v : Bytes)
      → all is_ascii j ≡ true
      → all is_ascii k ≡ true
      → first_metadata ops (set_metadata ops md j v) k ≡ (
          if same (to_lower_ascii j) (to_lower_ascii k)
          then (if is_empty (trim_space v) then first_metadata ops md k else trim_space v)
          else first_metadata ops md k)
  unfolding first_metadata set_metadata lookup_of
  first_metadata-set_metadata md j k v aj ak =
      ground (arith, lookup_of-set md j k (trim_space v) aj ak, trim_space_idem v)

  set_metadata-nil : (md : MD) (key : Bytes) → set_metadata ops md key [] ≡ md
  unfolding set_metadata trim_space
  set_metadata-nil md key = refl

  -- The test on the traceparent makes no difference: setMetadata skips an empty value too.
  guard_of_tp :
      (md : MD) (key v : Bytes)
      → (if not (is_empty v) then set_metadata ops md key v else md) ≡ set_metadata ops md key v
  guard_of_tp md key [] = rw set_metadata-nil
  guard_of_tp md key (b ∷ v) = refl

  first_metadata-empty : (k : Bytes) → first_metadata ops ops.empty k ≡ []
  unfolding first_metadata
  first_metadata-empty k = rw (laws.get-empty (to_lower_ascii k), laws.get-empty k)

  or_empty : (v : Bytes) → (if is_empty v then [] else v) ≡ v
  or_empty [] = refl
  or_empty (c ∷ v) = refl

  -- The values under the five keys are the trimmed fields of `c`.
  pub record Carries (md : MD) (c : Context) : Type 0 where
    pub request : first_metadata ops md header_request_id ≡ trim_space c.request_id
    pub trace : first_metadata ops md header_trace_id ≡ trim_space c.trace_id
    pub span : first_metadata ops md header_span_id ≡ trim_space c.span_id
    pub parent : first_metadata ops md header_parent_span_id ≡ trim_space c.parent_span_id
    pub tp : first_metadata ops md header_traceparent ≡ traceparent c

  set_all : Context → MD
  set_all c =
      set_metadata ops
        (set_metadata ops
          (set_metadata ops
            (set_metadata ops (set_metadata ops ops.empty header_request_id c.request_id)
              header_trace_id c.trace_id)
            header_span_id c.span_id)
          header_parent_span_id c.parent_span_id)
        header_traceparent (traceparent c)

  metadata_of-set_all : (c : Context) → metadata_of ops c ≡ set_all c
  unfolding metadata_of set_all
  metadata_of-set_all c = guard_of_tp _ header_traceparent (traceparent c)

  -- The value that a write of `v` under `j` leaves under `k`, where it was `old`.
  abbrev after : (j v k old : Bytes) → Bytes
  after j v k old =
      if same (to_lower_ascii j) (to_lower_ascii k)
      then (if is_empty (trim_space v) then old else trim_space v)
      else old

  read_all :
      (c : Context) (k : Bytes)
      → all is_ascii k ≡ true
      → first_metadata ops (set_all c) k
        ≡ after header_traceparent (traceparent c) k (
            after header_parent_span_id c.parent_span_id k (
              after header_span_id c.span_id k
                (after header_trace_id c.trace_id k (after header_request_id c.request_id k []))))
  unfolding set_all
  read_all c k ak = rw (
    first_metadata-set_metadata _ header_traceparent k (traceparent c) refl ak,
    first_metadata-set_metadata _ header_parent_span_id k c.parent_span_id refl ak,
    first_metadata-set_metadata _ header_span_id k c.span_id refl ak,
    first_metadata-set_metadata _ header_trace_id k c.trace_id refl ak,
    first_metadata-set_metadata _ header_request_id k c.request_id refl ak,
    first_metadata-empty k,
  )

  set_all-Carries : (c : Context) → Carries (set_all c) c
  unfolding to_lower_ascii
  set_all-Carries c = record {
    request = read_all c header_request_id refl ∙ or_empty (trim_space c.request_id);
    trace = read_all c header_trace_id refl ∙ or_empty (trim_space c.trace_id);
    span = read_all c header_span_id refl ∙ or_empty (trim_space c.span_id);
    parent = read_all c header_parent_span_id refl ∙ or_empty (trim_space c.parent_span_id);
    tp =
        read_all c header_traceparent refl
        ∙ or_empty (trim_space (traceparent c))
        ∙ trim_space-traceparent c;
  }

  pub from_carried :
      (draw : Draw) (c : Context) (md : MD) (k : ℕ)
      → valid c ≡ true
      → Carries md c
      → from_metadata ops draw md k ≡ (received draw c k, suc (suc (suc (suc k))))
  unfolding from_metadata new_context new_trace_id new_span_id
  from_carried draw c md k v f =
      let (ht, hs) = valid_parts c v in
      rw (
        f.request,
        f.trace,
        f.span,
        f.parent,
        f.tp,
        trim_space-hex c.trace_id (trace_id-is_lower_hex c.trace_id ht),
        trim_space-hex c.span_id (span_id-is_lower_hex c.span_id hs),
        adopt-of_valid draw c _ (trim_space c.parent_span_id) _ v,
        trim_space_idem c.request_id,
      )

  -- Over any implementation of metadata that keeps its laws, a receiver that parses the metadata of
  -- a valid sender gets the sender's trace, a fresh span, the
  -- sender's request identifier without white space around it, and as its parent the sender's span
  -- if the sender has no well-formed parent span itself; if it has one, that is the receiver's too.
  pub from_metadata-metadata_of :
      (draw : Draw) (c : Context) (k : ℕ)
      → valid c ≡ true
      → from_metadata ops draw (metadata_of ops c) k ≡ (received draw c k, suc (suc (suc (suc k))))
  from_metadata-metadata_of draw c k v =
      rw metadata_of-set_all (from_carried draw c (set_all c) k v (set_all-Carries c))

  pub metadata_of-Carries : (c : Context) → Carries (metadata_of ops c) c
  metadata_of-Carries c = rw metadata_of-set_all (set_all-Carries c)
