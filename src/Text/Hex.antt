-- ===== src/Text/Hex.antt =====
-- encoding/hex.EncodeToString, and lower-case hexadecimal texts.
use gklog.Base.{
  ℕ, [], ◌∷◌, Bool, true, ◌&&◌, ◌||◌, ◌≡◌, refl, arith, ◌+◌, ◌-◌, ◌*◌, ◌/◌, ◌%◌, ◌<◌, ltb, leb,
  if◌then◌else◌, all, All, length,
}
use gklog.Text.{Bytes}
use gklog.Text.Trim.{is_solid, trim_space, trim_space-solid}
use gklog.Text.Parts.{lacks}

-- A digit 0 to 9 or a to f.
abbrev pub is_lower_hex : ℕ → Bool
is_lower_hex r = (leb b'0' r && leb r b'9') || (leb b'a' r && leb r b'f')

unfoldable pub hex_digit : ℕ → ℕ
hex_digit n = if ltb n 10 then b'0' + n else b'a' + (n - 10)

unfoldable pub encode_hex : Bytes → Bytes
unfolding hex_digit
encode_hex [] = []
encode_hex (b ∷ bs) = hex_digit (b / 16) ∷ hex_digit (b % 16) ∷ encode_hex bs

abbrev pub IsByte : ℕ → Type 0
IsByte b = b < 256

pub length-encode_hex : (bs : Bytes) → length (encode_hex bs) ≡ 2 * length bs
unfolding encode_hex
length-encode_hex [] = refl
length-encode_hex (b ∷ bs) = omega (arith, length-encode_hex bs)

hex_digit-is_lower_hex : (n : ℕ) → n < 16 → is_lower_hex (hex_digit n) ≡ true
unfolding hex_digit
hex_digit-is_lower_hex n h = ground arith

digits_of_byte :
    (b : ℕ)
    → b < 256
    → (is_lower_hex (hex_digit (b / 16)) ≡ true) × (is_lower_hex (hex_digit (b % 16)) ≡ true)
digits_of_byte b h =
    (hex_digit-is_lower_hex (b / 16) (omega arith), hex_digit-is_lower_hex (b % 16) (omega arith))

pub encode_hex-is_lower_hex : (bs : Bytes) → All IsByte bs → all is_lower_hex (encode_hex bs) ≡ true
unfolding encode_hex
encode_hex-is_lower_hex [] h = refl
encode_hex-is_lower_hex (b ∷ bs) (hb, h) =
    let (hi, lo) = digits_of_byte b hb in rw (hi, lo, encode_hex-is_lower_hex bs h)

pub hex-is_solid : (s : Bytes) → all is_lower_hex s ≡ true → all is_solid s ≡ true
hex-is_solid [] h = refl
hex-is_solid (c ∷ s) h = ground (arith, hex-is_solid s)

-- A hexadecimal text has no white space to trim.
pub trim_space-hex : (s : Bytes) → all is_lower_hex s ≡ true → trim_space s ≡ s
trim_space-hex s h = trim_space-solid s (hex-is_solid s h)

-- A hexadecimal text holds no dash.
pub lacks-hex : (s : Bytes) → all is_lower_hex s ≡ true → lacks b'-' s ≡ true
lacks-hex [] h = refl
lacks-hex (c ∷ s) h = ground (arith, lacks-hex s)
