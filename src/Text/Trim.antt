-- ===== src/Text/Trim.antt =====
-- strings.TrimSpace on the bytes of a string: the white space of package unicode, each character in
-- its UTF-8 form, is dropped from both ends.
use gklog.Base.{
  ltb, all, all-reverse, true, ◌∙◌, ℕ, zero, suc, [], ◌∷◌, ◌++◌, reverse, Bool, ◌&&◌, ◌||◌, ◌≡◌,
  refl, ap, arith, ◌==◌, leb, if◌then◌else◌, reverse-append, reverse-reverse, ◌⊎◌, inl, inr,
}
use gklog.Text.{Bytes}

abbrev is_ascii_space : ℕ → Bool
is_ascii_space c = (leb 9 c && leb c 13) || c == 32

-- U+0085 and U+00A0
abbrev two_byte_space : ℕ → ℕ → Bool
two_byte_space a b = a == 0xC2 && (b == 0x85 || b == 0xA0)

-- U+1680, U+2000 to U+200A, U+2028, U+2029, U+202F, U+205F and U+3000
abbrev three_byte_space : ℕ → ℕ → ℕ → Bool
three_byte_space a b c =
    (a == 0xE1 && b == 0x9A && c == 0x80)
    || ((a == 0xE2
          && ((b == 0x80 && ((leb 0x80 c && leb c 0x8A) || c == 0xA8 || c == 0xA9 || c == 0xAF))
              || (b == 0x81 && c == 0x9F)))
        || (a == 0xE3 && b == 0x80 && c == 0x80))

-- How many bytes the white space at the front takes, 0 if there is none.
unfoldable pub front_space : Bytes → ℕ
front_space [] = 0
front_space (a ∷ []) = if is_ascii_space a then 1 else 0
front_space (a ∷ b ∷ []) = if is_ascii_space a then 1 else if two_byte_space a b then 2 else 0
front_space (a ∷ b ∷ c ∷ s) =
    if is_ascii_space a
    then 1
    else if two_byte_space a b
    then 2
    else if three_byte_space a b c
    then 3
    else 0

-- The same at the end of a string, whose bytes come last first.
pub back_space : Bytes → ℕ
back_space [] = 0
back_space (c ∷ []) = if is_ascii_space c then 1 else 0
back_space (c ∷ b ∷ []) = if is_ascii_space c then 1 else if two_byte_space b c then 2 else 0
back_space (c ∷ b ∷ a ∷ s) =
    if is_ascii_space c
    then 1
    else if two_byte_space b c
    then 2
    else if three_byte_space a b c
    then 3
    else 0

-- Drops `k` bytes, and then white space as long as `width` finds some.
drop_spaces : (Bytes → ℕ) → ℕ → Bytes → Bytes
drop_spaces width k [] = []
drop_spaces width (suc k) (c ∷ s) = drop_spaces width k s
drop_spaces width zero (c ∷ s) = elim (width (c ∷ s)) [
  | zero ↦ c ∷ s
  | suc n ↦ drop_spaces width n s
]

trim_left : Bytes → Bytes
unfolding drop_spaces front_space
trim_left s = drop_spaces front_space 0 s

trim_right : Bytes → Bytes
unfolding drop_spaces back_space
trim_right s = reverse (drop_spaces back_space 0 (reverse s))

unfoldable pub trim_space : Bytes → Bytes
unfolding trim_left trim_right
trim_space s = trim_right (trim_left s)

-- No white space stands at either end.
pub record IsTrimmed (s : Bytes) : Type 0 where
  pub front : front_space s ≡ 0
  pub back : back_space (reverse s) ≡ 0

ℕ-cases : (n : ℕ) → (n ≡ 0) ⊎ ((m : ℕ) × (n ≡ suc m))
ℕ-cases zero = inl refl
ℕ-cases (suc m) = inr (m, refl)

module _ (width : Bytes → ℕ) where
  drop_spaces_stop : (c : ℕ) (s : Bytes) → width (c ∷ s) ≡ 0 → drop_spaces width 0 (c ∷ s) ≡ c ∷ s
  unfolding drop_spaces
  drop_spaces_stop c s h = ground arith

  drop_spaces_go :
      (c : ℕ) (s : Bytes) (n : ℕ)
      → width (c ∷ s) ≡ suc n
      → drop_spaces width 0 (c ∷ s) ≡ drop_spaces width n s
  unfolding drop_spaces
  drop_spaces_go c s n h = ground arith

  drop_spaces-of_zero : (s : Bytes) → width s ≡ 0 → drop_spaces width 0 s ≡ s
  drop_spaces-of_zero [] h = unfold drop_spaces in refl
  drop_spaces-of_zero (c ∷ s) h = drop_spaces_stop c s h

  width-drop_spaces : width [] ≡ 0 → (k : ℕ) (s : Bytes) → width (drop_spaces width k s) ≡ 0
  unfolding drop_spaces
  width-drop_spaces e k [] = e
  width-drop_spaces e (suc k) (c ∷ s) = width-drop_spaces e k s
  width-drop_spaces e zero (c ∷ s) = elim (ℕ-cases (width (c ∷ s))) [
    | inl h ↦ rw (drop_spaces_stop c s h) h
    | inr (n, h) ↦ rw (drop_spaces_go c s n h) (width-drop_spaces e n s)
  ]

  drop_spaces_suffix : (k : ℕ) (s : Bytes) → (p : Bytes) × (s ≡ p ++ drop_spaces width k s)
  unfolding drop_spaces
  drop_spaces_suffix k [] = ([], refl)
  drop_spaces_suffix (suc k) (c ∷ s) =
      let (p, e) = drop_spaces_suffix k s in (c ∷ p, ap (λ t. c ∷ t) e)
  drop_spaces_suffix zero (c ∷ s) = elim (ℕ-cases (width (c ∷ s))) [
    | inl h ↦ rw (drop_spaces_stop c s h) ([], refl)
    | inr (n, h) ↦
        let (p, e) = drop_spaces_suffix n s in
        rw (drop_spaces_go c s n h) (c ∷ p, ap (λ t. c ∷ t) e)
  ]

front_space_prefix : (s t : Bytes) → front_space (s ++ t) ≡ 0 → front_space s ≡ 0
unfolding front_space
front_space_prefix [] t h = refl
front_space_prefix (a ∷ []) [] h = h
front_space_prefix (a ∷ []) (b ∷ []) h = ground arith
front_space_prefix (a ∷ []) (b ∷ c ∷ t) h = ground arith
front_space_prefix (a ∷ b ∷ []) [] h = h
front_space_prefix (a ∷ b ∷ []) (c ∷ t) h = ground arith
front_space_prefix (a ∷ b ∷ c ∷ s) t h = h

trim_space_parts :
    (s : Bytes)
    → trim_space s ≡ reverse (drop_spaces back_space 0 (reverse (drop_spaces front_space 0 s)))
unfolding trim_space
trim_space_parts s = refl

-- A string without white space at its ends is left as it is.
pub trim_space-of_IsTrimmed : (s : Bytes) → IsTrimmed s → trim_space s ≡ s
trim_space-of_IsTrimmed s h = rw (
  trim_space_parts,
  drop_spaces-of_zero front_space s h.front,
  drop_spaces-of_zero back_space (reverse s) h.back,
  reverse-reverse,
)

-- A front part of a text with no white space at its front has none either.
front_space_kept :
    (t p d : Bytes) → front_space t ≡ 0 → reverse t ≡ p ++ d → front_space (reverse d) ≡ 0
front_space_kept t p d h e =
    front_space_prefix (reverse d) (reverse p) (rw (← reverse-append p d, ← e, reverse-reverse) h)

-- What `trim_space` returns has no white space at its ends.
pub trim_space-IsTrimmed : (s : Bytes) → IsTrimmed (trim_space s)
trim_space-IsTrimmed s =
    let t = drop_spaces front_space 0 s in
    let (p, e) = drop_spaces_suffix back_space 0 (reverse t) in
    rw trim_space_parts (record {
      front =
          front_space_kept t p _ (width-drop_spaces front_space (unfold front_space in refl) 0 s) e;
      back =
          rw reverse-reverse
            (width-drop_spaces back_space (unfold back_space in refl) 0 (reverse t));
    })

pub trim_space_idem : (s : Bytes) → trim_space (trim_space s) ≡ trim_space s
trim_space_idem s = trim_space-of_IsTrimmed (trim_space s) (trim_space-IsTrimmed s)

-- A printable byte of ASCII that is no space.
abbrev pub is_solid : ℕ → Bool
is_solid c = ltb 32 c && ltb c 127

front_space-solid : (s : Bytes) → all is_solid s ≡ true → front_space s ≡ 0
unfolding front_space
front_space-solid [] h = refl
front_space-solid (a ∷ []) h = ground arith
front_space-solid (a ∷ b ∷ []) h = ground arith
front_space-solid (a ∷ b ∷ c ∷ s) h = ground arith

back_space-solid : (s : Bytes) → all is_solid s ≡ true → back_space s ≡ 0
unfolding back_space
back_space-solid [] h = refl
back_space-solid (a ∷ []) h = ground arith
back_space-solid (a ∷ b ∷ []) h = ground arith
back_space-solid (a ∷ b ∷ c ∷ s) h = ground arith

-- A text of solid bytes has no white space to trim.
pub trim_space-solid : (s : Bytes) → all is_solid s ≡ true → trim_space s ≡ s
trim_space-solid s h = trim_space-of_IsTrimmed s (record {
  front = front_space-solid s h;
  back = back_space-solid (reverse s) (all-reverse is_solid s ∙ h);
})

trim_runs :
    trim_space (32 ∷ 0xE2 ∷ 0x80 ∷ 0x83 ∷ 65 ∷ 32 ∷ 66 ∷ 0xC2 ∷ 0xA0 ∷ 10 ∷ []) ≡ 65 ∷ 32 ∷ 66 ∷ []
unfolding trim_space
trim_runs = refl
