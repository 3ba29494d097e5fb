-- ===== src/Text/Fields.antt =====
-- strings.Fields: the words of a text, parted by white space as package unicode has it.
use gklog.Base.{ℕ, zero, suc, List, [], ◌∷◌, reverse, ◌≡◌, refl}
use gklog.Text.{Bytes, codes}
use gklog.Text.Trim.{front_space}

-- The word read so far, last byte first, goes in front of the words behind it.
abbrev flush : Bytes → List Bytes → List Bytes
flush [] words = words
flush (c ∷ word) words = reverse (c ∷ word) ∷ words

-- Skips `k` bytes; `word` is the word read so far, last byte first.
fields_from : (k : ℕ) → (word : Bytes) → Bytes → List Bytes
fields_from k word [] = flush word []
fields_from (suc k) word (c ∷ s) = fields_from k word s
fields_from zero word (c ∷ s) = elim (front_space (c ∷ s)) [
  | zero ↦ fields_from zero (c ∷ word) s
  | suc n ↦ flush word (fields_from n [] s)
]

unfoldable pub fields : Bytes → List Bytes
unfolding fields_from front_space
fields s = fields_from 0 [] s

fields_runs : fields (codes "  select\n 1 ") ≡ codes "select" ∷ codes "1" ∷ []
unfolding fields
fields_runs = refl
