-- ===== src/Text.antt =====
-- Go strings as lists of bytes, with the functions of package strings that the program calls.
pub mod Trim
pub mod Parts
pub mod Hex
pub mod Keys
pub mod Case
pub mod Decimal
pub mod Fields
use Prim.Native.Char.{code}
use gklog.Base.{
  ℕ, String, List, [], ◌∷◌, Bool, true, false, ◌&&◌, ◌≡◌, refl, ◌↔◌, arith, ◌==◌, ==_iff,
}

abbrev pub Bytes : Type 0
Bytes = List ℕ

-- The bytes of a literal in ASCII.
abbrev pub codes : String → Bytes
codes String.[] = []
codes (String.◌∷◌ c s) = code c ∷ codes s

-- `s == t`
abbrev pub same : Bytes → Bytes → Bool
same [] [] = true
same (a ∷ s) (b ∷ t) = a == b && same s t
same _ _ = false

pub same_refl : (s : Bytes) → same s s ≡ true
same_refl [] = refl
same_refl (a ∷ s) = ground (arith, same_refl s)

same-eq : (s t : Bytes) → same s t ≡ true → s ≡ t
same-eq [] [] h = refl
same-eq [] (_ ∷ _) h = cc
same-eq (_ ∷ _) [] h = cc
same-eq (a ∷ s) (b ∷ t) h = ground (arith, same-eq s t)

eq-same : (s t : Bytes) → s ≡ t → same s t ≡ true
eq-same s t h = rw (← h) (same_refl s)

pub same_iff : (s t : Bytes) → (same s t ≡ true) ↔ (s ≡ t)
same_iff s t = (same-eq s t, eq-same s t)
