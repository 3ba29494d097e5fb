-- ===== src/Correlation/Ident.antt =====
-- correlation/correlation.go: the checks on identifiers, ParseTraceparent, and fresh identifiers.
-- crypto/rand.Read is a source of draws: `draw k n` is what the k-th read of a process gives for n
-- bytes, `none` if it fails. A function that reads takes the number of reads made before it and
-- returns the number made after it.
pub mod Traceparent
pub mod Fresh
use gklog.Base.{
  ℕ, suc, ◌*◌, List, [], ◌∷◌, Option, none, some, Bool, true, false, not, ◌&&◌, ◌||◌, ◌≡◌, ◌==◌,
  if◌then◌else◌, all, length, replicate, All,
}
use gklog.Text.{Bytes, codes, same}
use gklog.Text.Trim.{trim_space}
use gklog.Text.Parts.{split}
use gklog.Text.Hex.{is_lower_hex, encode_hex, IsByte}

-- The loop is over characters; one that is no byte of ASCII fails the test as its bytes do.
unfoldable pub valid_hex : Bytes → ℕ → Bool
valid_hex value len = if not (length value == len) then false else all is_lower_hex value

unfoldable pub valid_trace_id : Bytes → Bool
unfolding valid_hex
valid_trace_id value = valid_hex value 32 && not (same value (replicate 32 b'0'))

unfoldable pub valid_span_id : Bytes → Bool
unfolding valid_hex
valid_span_id value = valid_hex value 16 && not (same value (replicate 16 b'0'))

-- The tests on the parts of a traceparent; the pattern is the test on their number.
parse_parts : List Bytes → Option (Bytes × Bytes)
parse_parts (version ∷ trace ∷ span ∷ flags ∷ []) =
    if not (same version (codes "00"))
    then none
    else if not (valid_trace_id trace) || not (valid_span_id span)
    then none
    else some (trace, span)
parse_parts _ = none

unfoldable pub parse_traceparent : Bytes → Option (Bytes × Bytes)
unfolding parse_parts
parse_traceparent raw = parse_parts (split (trim_space raw) b'-')

abbrev pub Draw : Type 0
Draw = ℕ → ℕ → Option Bytes

-- What the documentation of crypto/rand promises: a read that succeeds fills the buffer.
pub record IsSource (draw : Draw) : Type 0 where
  pub filled : (k n : ℕ) (buf : Bytes) → draw k n ≡ some buf → (length buf ≡ n) × All IsByte buf

hex_of_read : ℕ → Option Bytes → Bytes
hex_of_read n none = replicate (n * 2) b'0'
hex_of_read n (some buf) = encode_hex buf

module _ (draw : Draw) where
  unfoldable pub random_hex : ℕ → ℕ → Bytes × ℕ
  unfolding hex_of_read
  random_hex n k = (hex_of_read n (draw k n), suc k)

  unfoldable pub new_trace_id : ℕ → Bytes × ℕ
  unfolding random_hex
  new_trace_id k = random_hex 16 k

  unfoldable pub new_span_id : ℕ → Bytes × ℕ
  unfolding random_hex
  new_span_id k = random_hex 8 k
