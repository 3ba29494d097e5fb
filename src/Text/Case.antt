-- ===== src/Text/Case.antt =====
-- strings.ToUpper and strings.ToLower. On a text in ASCII they map each byte; for another text the
-- tables of package unicode are not modelled, and the case mapping is an argument.
use gklog.Base.{
  ℕ, ◌+◌, ◌-◌, [], ◌∷◌, Bool, true, ◌&&◌, ◌≡◌, refl, arith, map, ltb, leb, if◌then◌else◌, all,
}
use gklog.Text.{Bytes}

abbrev pub is_ascii : ℕ → Bool
is_ascii c = ltb c 128

abbrev pub upper_byte : ℕ → ℕ
upper_byte c = if leb b'a' c && leb c b'z' then c - 32 else c

abbrev pub lower_byte : ℕ → ℕ
lower_byte c = if leb b'A' c && leb c b'Z' then c + 32 else c

unfoldable pub to_upper : (Bytes → Bytes) → Bytes → Bytes
to_upper unicode_upper s = if all is_ascii s then map upper_byte s else unicode_upper s

-- The keys that the program maps to lower case are constants in ASCII.
unfoldable pub to_lower_ascii : Bytes → Bytes
to_lower_ascii s = map lower_byte s

lower_byte_idem : (c : ℕ) → lower_byte (lower_byte c) ≡ lower_byte c
lower_byte_idem c = ground arith

pub to_lower_ascii_idem : (s : Bytes) → to_lower_ascii (to_lower_ascii s) ≡ to_lower_ascii s
unfolding to_lower_ascii
to_lower_ascii_idem [] = refl
to_lower_ascii_idem (c ∷ s) = cc (lower_byte_idem c, to_lower_ascii_idem s)

pub to_lower_ascii-is_ascii :
    (s : Bytes) → all is_ascii s ≡ true → all is_ascii (to_lower_ascii s) ≡ true
unfolding to_lower_ascii
to_lower_ascii-is_ascii [] h = refl
to_lower_ascii-is_ascii (c ∷ s) h = ground (arith, to_lower_ascii-is_ascii s)
