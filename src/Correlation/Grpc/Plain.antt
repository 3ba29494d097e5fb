-- ===== src/Correlation/Grpc/Plain.antt =====
-- Which metadata gRPC promises to deliver as it is: values in printable ASCII, as its documentation of
-- the wire format asks for keys that do not end in "-bin".
use gklog.Base.{
  ◌++◌, [], ◌∷◌, Bool, true, not, ◌&&◌, ◌≡◌, refl, arith, is_empty, leb, all, all-append,
  Bool-cases, inl, inr,
}
use gklog.Text.{Bytes, codes, same, same_iff}
use gklog.Text.Trim.{trim_space, trim_space_idem}
use gklog.Text.Hex.{is_lower_hex, trim_space-hex}
use gklog.Text.Case.{is_ascii, to_lower_ascii, to_lower_ascii-is_ascii}
use gklog.Metadata.{MdOps, IsMd}
use gklog.Correlation.Ident.Traceparent.{trace_id-is_lower_hex, span_id-is_lower_hex}
use gklog.Correlation.Context.{Context, valid, traceparent}
use gklog.Correlation.Context.Span.{valid_parts, trim_space-traceparent}
use gklog.Correlation.Adopt.{
  header_request_id, header_trace_id, header_span_id, header_parent_span_id, header_traceparent,
}
use gklog.Correlation.Grpc.{set_metadata, metadata_of}

abbrev pub is_printable : Bytes → Bool
is_printable s = all (λ c. leb 0x20 c && leb c 0x7E) s

-- A value that is not empty, is printable, and has no white space at its ends.
abbrev pub is_plain : Bytes → Bool
is_plain v = not (is_empty v) && (is_printable v && same (trim_space v) v)

abbrev pub IsPlain : {MD : Type 0} → MdOps MD → MD → Type 0
IsPlain ops md = (k : Bytes) → all is_ascii k ≡ true → all is_plain (ops.get md k) ≡ true

-- The fields of a correlation that may hold anything are printable.
abbrev pub is_sendable : Context → Bool
is_sendable c = is_printable (trim_space c.request_id) && is_printable (trim_space c.parent_span_id)

hex-is_printable : (s : Bytes) → all is_lower_hex s ≡ true → is_printable s ≡ true
hex-is_printable [] h = refl
hex-is_printable (c ∷ s) h = ground (arith, hex-is_printable s)

append-is_printable :
    (s t : Bytes) → is_printable s ≡ true → is_printable t ≡ true → is_printable (s ++ t) ≡ true
append-is_printable s t hs ht = rw (all-append, hs, ht) refl

traceparent-is_printable : (c : Context) → valid c ≡ true → is_printable (traceparent c) ≡ true
unfolding traceparent
traceparent-is_printable c v =
    let (ht, hs) = valid_parts c v in
    let trace = hex-is_printable c.trace_id (trace_id-is_lower_hex c.trace_id ht) in
    let span = hex-is_printable c.span_id (span_id-is_lower_hex c.span_id hs) in
    rw v (
      append-is_printable (codes "00-") (c.trace_id ++ (codes "-" ++ (c.span_id ++ codes "-01")))
        refl
        (append-is_printable c.trace_id (codes "-" ++ (c.span_id ++ codes "-01")) trace (
          append-is_printable (codes "-") (c.span_id ++ codes "-01") refl
            (append-is_printable c.span_id (codes "-01") span refl))))

module _ {MD : Type 0} (ops : MdOps MD) (laws : IsMd ops) where
  set_metadata-IsPlain :
      (md : MD) (j v : Bytes)
      → IsPlain ops md
      → all is_ascii j ≡ true
      → is_printable (trim_space v) ≡ true
      → IsPlain ops (set_metadata ops md j v)
  unfolding set_metadata
  set_metadata-IsPlain md j v h aj p k ak = elim (Bool-cases (is_empty (trim_space v))) [
    | inl e ↦ rw e (h k ak)
    | inr e ↦
        let trimmed = (same_iff (trim_space (trim_space v)) (trim_space v)).1 (trim_space_idem v) in
        rw
          (e, laws.get-set md (to_lower_ascii j) k (trim_space v) (to_lower_ascii-is_ascii j aj) ak)
          (elim (Bool-cases (same (to_lower_ascii (to_lower_ascii j)) (to_lower_ascii k))) [
            | inl q ↦ rw (q, e, p, trimmed) refl
            | inr q ↦ rw q (h k ak)
          ])
  ]

  empty-IsPlain : IsPlain ops ops.empty
  empty-IsPlain k ak = rw (laws.get-empty k) refl

  pub metadata_of-IsPlain :
      (c : Context) → valid c ≡ true → is_sendable c ≡ true → IsPlain ops (metadata_of ops c)
  unfolding metadata_of
  metadata_of-IsPlain c v h =
      let (ht, hs) = valid_parts c v in
      let trace = trace_id-is_lower_hex c.trace_id ht in
      let span = span_id-is_lower_hex c.span_id hs in
      let a =
        set_metadata-IsPlain _ header_request_id c.request_id empty-IsPlain refl
          (ground (arith, h)) in
      let b =
        set_metadata-IsPlain _ header_trace_id c.trace_id a refl
          (rw (trim_space-hex c.trace_id trace) (hex-is_printable c.trace_id trace)) in
      let d =
        set_metadata-IsPlain _ header_span_id c.span_id b refl
          (rw (trim_space-hex c.span_id span) (hex-is_printable c.span_id span)) in
      let e =
        set_metadata-IsPlain _ header_parent_span_id c.parent_span_id d refl (ground (arith, h)) in
      elim (Bool-cases (is_empty (traceparent c))) [
        | inl n ↦ rw n e
        | inr n ↦ rw n (
            set_metadata-IsPlain _ header_traceparent (traceparent c) e refl
              (rw (trim_space-traceparent c) (traceparent-is_printable c v)))
      ]
