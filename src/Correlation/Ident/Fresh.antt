-- ===== src/Correlation/Ident/Fresh.antt =====
-- Fresh identifiers are well formed exactly when the read succeeded and gave some nonzero byte.
use gklog.Base.{
  is_empty, Option-cases, inl, inr, ◌∙◌, ℕ, suc, ◌*◌, ◌/◌, ◌%◌, ◌<◌, [], ◌∷◌, Option, none, some,
  Bool, true, false, not, ◌&&◌, ◌≡◌, refl, arith, ◌==◌, all, length, replicate, All,
}
use gklog.Text.{Bytes, same}
use gklog.Text.Hex.{hex_digit, encode_hex, IsByte, length-encode_hex, encode_hex-is_lower_hex}
use gklog.Correlation.Ident.{
  valid_hex, valid_trace_id, valid_span_id, Draw, IsSource, new_trace_id, new_span_id,
}

-- A read that succeeded and gave a byte other than 0.
abbrev pub nonzero : Option Bytes → Bool
nonzero none = false
nonzero (some buf) = not (all (λ b. b == 0) buf)

zero_digit : (n : ℕ) → n < 16 → (hex_digit n == b'0') ≡ (n == 0)
unfolding hex_digit
zero_digit n h = ground arith

zero_byte : (b : ℕ) → b < 256 → ((b / 16 == 0) && (b % 16 == 0)) ≡ (b == 0)
zero_byte b h = ground arith

all_zero-encode_hex :
    (bs : Bytes) → All IsByte bs → all (λ c. c == b'0') (encode_hex bs) ≡ all (λ b. b == 0) bs
unfolding encode_hex
all_zero-encode_hex [] h = refl
all_zero-encode_hex (b ∷ bs) (hb, h) = ground (
  arith,
  all_zero-encode_hex bs h,
  zero_byte b hb,
  zero_digit (b / 16) (omega arith),
  zero_digit (b % 16) (omega arith),
)

same-replicate : (s : Bytes) → same s (replicate (length s) b'0') ≡ all (λ c. c == b'0') s
same-replicate [] = refl
same-replicate (c ∷ s) = ground (arith, same-replicate s)

-- A hexadecimal text of the right length is well formed unless it is all zeros.
module _ (buf : Bytes) (n : ℕ) (size : length buf ≡ n) (bytes : All IsByte buf) where
  length_of_hex : length (encode_hex buf) ≡ 2 * n
  length_of_hex = rw (length-encode_hex, size)

  valid_hex-encode_hex : valid_hex (encode_hex buf) (2 * n) ≡ true
  unfolding valid_hex
  valid_hex-encode_hex = ground (arith, length_of_hex, encode_hex-is_lower_hex buf bytes)

  same-zeros : same (encode_hex buf) (replicate (2 * n) b'0') ≡ all (λ b. b == 0) buf
  same-zeros =
      rw (← length_of_hex) (same-replicate (encode_hex buf) ∙ all_zero-encode_hex buf bytes)

is_empty-encode_hex : (buf : Bytes) {n : ℕ} → length buf ≡ suc n → is_empty (encode_hex buf) ≡ false
unfolding encode_hex
is_empty-encode_hex [] h = absurd (omega arith)
is_empty-encode_hex (b ∷ buf) h = refl

module _ (draw : Draw) (source : IsSource draw) (k : ℕ) where
  -- If reads that succeed fill the buffer, a fresh trace identifier is well formed exactly when the
  -- read gave a nonzero byte; it is not when the read failed.
  pub valid-new_trace_id : valid_trace_id (new_trace_id draw k).0 ≡ nonzero (draw k 16)
  unfolding new_trace_id valid_trace_id
  valid-new_trace_id = elim (Option-cases (draw k 16)) [
    | inl e ↦ rw e refl
    | inr (buf, e) ↦
        let (size, bytes) = source.filled k 16 buf e in
        rw e (rw (valid_hex-encode_hex buf 16 size bytes, same-zeros buf 16 size bytes) refl)
  ]

  -- So is a fresh span identifier.
  pub valid-new_span_id : valid_span_id (new_span_id draw k).0 ≡ nonzero (draw k 8)
  unfolding new_span_id valid_span_id
  valid-new_span_id = elim (Option-cases (draw k 8)) [
    | inl e ↦ rw e refl
    | inr (buf, e) ↦
        let (size, bytes) = source.filled k 8 buf e in
        rw e (rw (valid_hex-encode_hex buf 8 size bytes, same-zeros buf 8 size bytes) refl)
  ]

  -- A fresh trace identifier is never empty, also when the read failed.
  pub is_empty-new_trace_id : is_empty (new_trace_id draw k).0 ≡ false
  unfolding new_trace_id
  is_empty-new_trace_id = elim (Option-cases (draw k 16)) [
    | inl e ↦ rw e refl
    | inr (buf, e) ↦ rw e (is_empty-encode_hex buf (source.filled k 16 buf e).0)
  ]
