-- ===== src/Correlation/Context/Span.antt =====
-- Valid contexts, their traceparent, and the line from a context to its children.
use gklog.Base.{
  ℕ, zero, suc, [], ◌∷◌, ◌++◌, none, some, true, false, ◌&&◌, ◌≡◌, refl, ◌∙◌, if◌then◌else◌,
  is_empty, Bool-cases, inl, inr, and_parts, all, all-append,
}
use gklog.Text.{Bytes, codes}
use gklog.Text.Trim.{is_solid, trim_space, trim_space-solid}
use gklog.Text.Parts.{split}
use gklog.Text.Hex.{is_lower_hex, hex-is_solid}
use gklog.Correlation.Ident.{
  Draw, IsSource, valid_trace_id, valid_span_id, parse_traceparent, new_trace_id, new_span_id,
}
use gklog.Correlation.Ident.Fresh.{nonzero, valid-new_trace_id, valid-new_span_id}
use gklog.Correlation.Ident.Traceparent.{
  render, Reads, parse_traceparent_iff, trace_id-is_lower_hex, span_id-is_lower_hex,
}
use gklog.Correlation.Context.{Context, valid, traceparent, new_context, child}

traceparent-render :
    (c : Context) → valid c ≡ true → traceparent c ≡ render c.trace_id c.span_id (codes "01")
unfolding traceparent
traceparent-render c h = rw h

-- A traceparent has no white space around it.
render-trimmed :
    (t s : Bytes)
    → all is_lower_hex t ≡ true
    → all is_lower_hex s ≡ true
    → trim_space (render t s (codes "01")) ≡ render t s (codes "01")
render-trimmed t s ht hs = trim_space-solid (render t s (codes "01")) (
    rw (
      all-append is_solid t (b'-' ∷ (s ++ b'-' ∷ codes "01")),
      all-append is_solid s (b'-' ∷ codes "01"),
      hex-is_solid t ht,
      hex-is_solid s hs,
    ))

pub valid_parts :
    (c : Context)
    → valid c ≡ true
    → (valid_trace_id c.trace_id ≡ true) × (valid_span_id c.span_id ≡ true)
unfolding valid
valid_parts c h = and_parts (valid_trace_id c.trace_id) (valid_span_id c.span_id) h

pub valid_of_parts :
    (c : Context)
    → valid_trace_id c.trace_id ≡ true
    → valid_span_id c.span_id ≡ true
    → valid c ≡ true
unfolding valid
valid_of_parts c ht hs = rw (ht, hs)

pub Reads-traceparent : (c : Context) → valid c ≡ true → Reads (traceparent c) c.trace_id c.span_id
Reads-traceparent c h =
    let (ht, hs) = valid_parts c h in
    record {
      trace_ok = ht;
      span_ok = hs;
      flags = codes "01";
      one_part = refl;
      text = rw (traceparent-render c h) (
          render-trimmed c.trace_id c.span_id (trace_id-is_lower_hex c.trace_id ht)
            (span_id-is_lower_hex c.span_id hs));
    }

no_traceparent : (c : Context) → valid c ≡ false → traceparent c ≡ []
unfolding traceparent
no_traceparent c h = rw h

nothing_to_read : parse_traceparent [] ≡ none
unfolding parse_traceparent trim_space split
nothing_to_read = refl

-- The traceparent of a context reads back as its trace and span if the context is valid, and as
-- nothing if it is not.
pub parse_traceparent-traceparent :
    (c : Context)
    → parse_traceparent (traceparent c) ≡ (if valid c then some (c.trace_id, c.span_id) else none)
parse_traceparent-traceparent c = elim (Bool-cases (valid c)) [
  | inl h ↦
      rw h ((parse_traceparent_iff (traceparent c) c.trace_id c.span_id).1 (Reads-traceparent c h))
  | inr h ↦ rw (h, no_traceparent c h) nothing_to_read
]

module _ (draw : Draw) where
  pub count_of_trace : (k : ℕ) → (new_trace_id draw k).1 ≡ suc k
  unfolding new_trace_id
  count_of_trace k = refl

  pub count_of_span : (k : ℕ) → (new_span_id draw k).1 ≡ suc k
  unfolding new_span_id
  count_of_span k = refl

-- All reads from the k-th on give a nonzero byte, for a trace and for a span.
abbrev pub IsLively : Draw → Type 0
IsLively draw = (k : ℕ) → (nonzero (draw k 16) ≡ true) × (nonzero (draw k 8) ≡ true)

module _ (draw : Draw) (source : IsSource draw) where
  -- If reads that succeed fill the buffer, a fresh context is valid exactly when both reads gave a
  -- nonzero byte.
  pub valid-new_context :
      (request_id : Bytes) (k : ℕ)
      → valid (new_context draw request_id k).0 ≡ (nonzero (draw k 16) && nonzero (draw (suc k) 8))
  unfolding valid new_context
  valid-new_context request_id k = rw (
    count_of_trace draw k,
    valid-new_trace_id draw source k,
    valid-new_span_id draw source (suc k),
  )

module _ (draw : Draw) (source : IsSource draw) (lively : IsLively draw) where
  pub new_context-valid :
      (request_id : Bytes) (k : ℕ) → valid (new_context draw request_id k).0 ≡ true
  new_context-valid request_id k =
      rw (valid-new_context draw source request_id k, (lively k).0, (lively (suc k)).1)

pub trace_id-is_empty : (t : Bytes) → valid_trace_id t ≡ true → is_empty t ≡ false
unfolding valid_trace_id
trace_id-is_empty [] h = cc
trace_id-is_empty (x ∷ t) h = refl

pub span_id-is_empty : (t : Bytes) → valid_span_id t ≡ true → is_empty t ≡ false
unfolding valid_span_id
span_id-is_empty [] h = cc
span_id-is_empty (x ∷ t) h = refl

-- A child of a valid context differs from it in the span and the parent alone.
child-of_valid :
    (draw : Draw) (c : Context) (k : ℕ)
    → valid c ≡ true
    → child draw c k
      ≡ (record c { span_id = (new_span_id draw k).0; parent_span_id = c.span_id }, suc k)
unfolding child
child-of_valid draw c k h =
    let (ht, hs) = valid_parts c h in
    rw (trace_id-is_empty c.trace_id ht, span_id-is_empty c.span_id hs, count_of_span draw k)

-- The context after a number of child spans, each the child of the one before.
pub descend : Draw → ℕ → Context → ℕ → Context × ℕ
descend draw zero c k = (c, k)
descend draw (suc n) c k = let (c', k') = descend draw n c k in child draw c' k'

-- What a later span of a trace shares with the context that the trace started from.
pub record IsLater (c d : Context) : Type 0 where
  pub valid_later : valid d ≡ true
  pub trace : d.trace_id ≡ c.trace_id
  pub request : d.request_id ≡ c.request_id
  pub identity : d.identity_attributes ≡ c.identity_attributes

module _ (draw : Draw) (source : IsSource draw) (lively : IsLively draw) where
  child-IsLater : (c d : Context) (k : ℕ) → IsLater c d → IsLater c (child draw d k).0
  child-IsLater c d k l = rw (child-of_valid draw d k l.valid_later) (record {
    valid_later =
        valid_of_parts _ (valid_parts d l.valid_later).0
          (valid-new_span_id draw source k ∙ (lively k).1);
    trace = l.trace;
    request = l.request;
    identity = l.identity;
  })

  descend_all : (n : ℕ) (c : Context) (k : ℕ) → valid c ≡ true → IsLater c (descend draw n c k).0
  unfolding descend
  descend_all zero c k h = record { valid_later = h; trace = refl; request = refl; identity = refl }
  descend_all (suc n) c k h =
      let (d, k') = descend draw n c k in child-IsLater c d k' (descend_all n c k h)

  parent_of_child :
      (d : Context) (k : ℕ) → valid d ≡ true → (child draw d k).0.parent_span_id ≡ d.span_id
  parent_of_child d k h = rw (child-of_valid draw d k h)

  -- If the random source works and gives no zeros, then however many child spans are made from a
  -- valid context, one below the other, each is valid, keeps the trace, the request and the identity
  -- attributes, and names the span before it as its parent.
  pub descend-IsLater :
      (n : ℕ) (c : Context) (k : ℕ)
      → valid c ≡ true
      → IsLater c (descend draw (suc n) c k).0
        × ((descend draw (suc n) c k).0.parent_span_id ≡ (descend draw n c k).0.span_id)
  descend-IsLater n c k h =
      let (d, k') = descend draw n c k in
      (
        descend_all (suc n) c k h,
        unfold descend in parent_of_child d k' (descend_all n c k h).valid_later,
      )

-- A traceparent is trimmed, the empty one included.
pub trim_space-traceparent : (c : Context) → trim_space (traceparent c) ≡ traceparent c
trim_space-traceparent c = elim (Bool-cases (valid c)) [
  | inl h ↦
      let (ht, hs) = valid_parts c h in
      rw (traceparent-render c h) (
        render-trimmed c.trace_id c.span_id (trace_id-is_lower_hex c.trace_id ht)
          (span_id-is_lower_hex c.span_id hs))
  | inr h ↦ rw (no_traceparent c h) (unfold trim_space in refl)
]
