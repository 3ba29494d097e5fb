-- ===== src/Correlation/Ident/Traceparent.antt =====
-- ParseTraceparent accepts exactly version 00 with a well-formed trace and span, and any flags.
use gklog.Base.{
  ◌∙◌, ◌↔◌, ℕ, List, [], ◌∷◌, ◌++◌, some, true, ◌≡◌, refl, sym, ap, arith, all, All, subst,
  and_parts,
}
use gklog.Text.{Bytes, codes, same_iff}
use gklog.Text.Trim.{trim_space}
use gklog.Text.Parts.{split, join, join-split, split-append, split-of_lacks, split-All-lacks, lacks}
use gklog.Text.Hex.{is_lower_hex, lacks-hex}
use gklog.Correlation.Ident.{
  valid_hex, valid_trace_id, valid_span_id, parse_parts, parse_traceparent,
}

pub valid_hex-is_lower_hex : (s : Bytes) (n : ℕ) → valid_hex s n ≡ true → all is_lower_hex s ≡ true
unfolding valid_hex
valid_hex-is_lower_hex s n h = ground arith

pub trace_id-is_lower_hex : (s : Bytes) → valid_trace_id s ≡ true → all is_lower_hex s ≡ true
trace_id-is_lower_hex s h =
    valid_hex-is_lower_hex s 32 (unfold valid_trace_id in (and_parts (valid_hex s 32) _ h).0)

-- The text of a traceparent.
abbrev pub render : Bytes → Bytes → Bytes → Bytes
render trace span flags = codes "00" ++ b'-' ∷ (trace ++ b'-' ∷ (span ++ b'-' ∷ flags))

split-render :
    (trace span flags : Bytes)
    → lacks b'-' trace ≡ true
    → lacks b'-' span ≡ true
    → lacks b'-' flags ≡ true
    → split (render trace span flags) b'-' ≡ codes "00" ∷ trace ∷ span ∷ flags ∷ []
split-render trace span flags ht hs hf = rw (
  split-append (codes "00") (trace ++ b'-' ∷ (span ++ b'-' ∷ flags)) b'-' refl,
  split-append trace (span ++ b'-' ∷ flags) b'-' ht,
  split-append span flags b'-' hs,
  split-of_lacks flags b'-' hf,
)

pub span_id-is_lower_hex : (s : Bytes) → valid_span_id s ≡ true → all is_lower_hex s ≡ true
span_id-is_lower_hex s h =
    valid_hex-is_lower_hex s 16 (unfold valid_span_id in (and_parts (valid_hex s 16) _ h).0)

parse_parts_sound :
    (ps : List Bytes) (trace span : Bytes)
    → parse_parts ps ≡ some (trace, span)
    → (flags : Bytes) × (ps ≡ codes "00" ∷ trace ∷ span ∷ flags ∷ [])
      × (valid_trace_id trace ≡ true)
      × (valid_span_id span ≡ true)
unfolding parse_parts
parse_parts_sound (v ∷ t ∷ s ∷ f ∷ []) trace span h =
    (f, ground (arith, same_iff v (codes "00")), ground arith, ground arith)
parse_parts_sound _ trace span h = cc

parse_parts_complete :
    (trace span flags : Bytes)
    → valid_trace_id trace ≡ true
    → valid_span_id span ≡ true
    → parse_parts (codes "00" ∷ trace ∷ span ∷ flags ∷ []) ≡ some (trace, span)
unfolding parse_parts
parse_parts_complete trace span flags ht hs = rw (ht, hs)

-- What `raw` looks like when a trace and a span are read from it.
pub record Reads (raw trace span : Bytes) : Type 0 where
  pub trace_ok : valid_trace_id trace ≡ true
  pub span_ok : valid_span_id span ≡ true
  pub flags : Bytes
  pub one_part : lacks b'-' flags ≡ true
  pub text : trim_space raw ≡ render trace span flags

join_four :
    (a b c d : Bytes)
    → join (a ∷ b ∷ c ∷ d ∷ []) (b'-' ∷ []) ≡ a ++ b'-' ∷ (b ++ b'-' ∷ (c ++ b'-' ∷ d))
unfolding join
join_four a b c d = refl

parse_traceparent_sound :
    (raw trace span : Bytes) → parse_traceparent raw ≡ some (trace, span) → Reads raw trace span
unfolding parse_traceparent
parse_traceparent_sound raw trace span h =
    let s = trim_space raw in
    let (f, parts, ht, hs) = parse_parts_sound (split s b'-') trace span h in
    let whole : All (λ p. lacks b'-' p ≡ true) (codes "00" ∷ trace ∷ span ∷ f ∷ []) =
      subst (All (λ p. lacks b'-' p ≡ true)) parts (split-All-lacks s b'-') in
    record {
      trace_ok = ht;
      span_ok = hs;
      flags = f;
      one_part = whole.1.1.1.0;
      text =
          sym (join-split s b'-') ∙ ap (λ ps. join ps (b'-' ∷ [])) parts ∙ join_four _ trace span f;
    }

parse_traceparent_complete :
    (raw trace span : Bytes) → Reads raw trace span → parse_traceparent raw ≡ some (trace, span)
unfolding parse_traceparent
parse_traceparent_complete raw trace span r =
    rw
      (
        r.text,
        split-render trace span r.flags (lacks-hex trace (trace_id-is_lower_hex trace r.trace_ok))
            (lacks-hex span (span_id-is_lower_hex span r.span_ok)) r.one_part,
      )
      (parse_parts_complete trace span r.flags r.trace_ok r.span_ok)

-- A trace and a span are read exactly from a text that, trimmed, is "00-", the trace, "-", the span,
-- "-" and flags, which may be anything without a dash.
pub parse_traceparent_iff :
    (raw trace span : Bytes) → (parse_traceparent raw ≡ some (trace, span)) ↔ Reads raw trace span
parse_traceparent_iff raw trace span =
    (parse_traceparent_sound raw trace span, parse_traceparent_complete raw trace span)
