-- ===== src/Text/Parts.antt =====
-- strings.Split at one byte and strings.Join.
use gklog.Base.{
  All, false, Bool-cases, inl, inr, ℕ, List, [], ◌∷◌, ◌++◌, Bool, true, not, ◌≡◌, refl, sym, ap,
  arith, ◌==◌, ==_iff, if◌then◌else◌, all,
}
use gklog.Text.{Bytes}

-- The byte goes in front of the first part.
abbrev push_head : ℕ → List Bytes → List Bytes
push_head c [] = (c ∷ []) ∷ []
push_head c (p ∷ ps) = (c ∷ p) ∷ ps

unfoldable pub split : Bytes → ℕ → List Bytes
split [] sep = [] ∷ []
split (c ∷ s) sep = let rest = split s sep in if c == sep then [] ∷ rest else push_head c rest

unfoldable pub join : List Bytes → Bytes → Bytes
join [] sep = []
join (p ∷ []) sep = p
join (p ∷ q ∷ ps) sep = p ++ (sep ++ join (q ∷ ps) sep)

-- No byte of the text is the separator.
abbrev pub lacks : ℕ → Bytes → Bool
lacks sep s = all (λ c. not (c == sep)) s

pub split-of_lacks : (p : Bytes) (sep : ℕ) → lacks sep p ≡ true → split p sep ≡ p ∷ []
unfolding split
split-of_lacks [] sep h = refl
split-of_lacks (c ∷ p) sep h = ground (arith, split-of_lacks p sep)

-- A part without the separator ends at the first one.
pub split-append :
    (p s : Bytes) (sep : ℕ) → lacks sep p ≡ true → split (p ++ sep ∷ s) sep ≡ p ∷ split s sep
unfolding split
split-append [] s sep h = ground arith
split-append (c ∷ p) s sep h = ground (arith, split-append p s sep)

join-push_head :
    (c : ℕ) (ps : List Bytes) (sep : Bytes) → join (push_head c ps) sep ≡ c ∷ join ps sep
unfolding join
join-push_head c [] sep = refl
join-push_head c (p ∷ []) sep = refl
join-push_head c (p ∷ q ∷ ps) sep = refl

push_head-cons :
    (c : ℕ) (ps : List Bytes) → (p : Bytes) × (qs : List Bytes) × (push_head c ps ≡ p ∷ qs)
push_head-cons c [] = (c ∷ [], [], refl)
push_head-cons c (p ∷ ps) = (c ∷ p, ps, refl)

-- There is always a first part.
pub split-cons : (s : Bytes) (sep : ℕ) → (p : Bytes) × (ps : List Bytes) × (split s sep ≡ p ∷ ps)
unfolding split
split-cons [] sep = ([], [], refl)
split-cons (c ∷ s) sep = elim (Bool-cases (c == sep)) [
  | inl e ↦ rw e ([], split s sep, refl)
  | inr e ↦ rw e (push_head-cons c (split s sep))
]

join-nil_cons :
    (s : Bytes) (sep : ℕ) → join ([] ∷ split s sep) (sep ∷ []) ≡ sep ∷ join (split s sep) (sep ∷ [])
join-nil_cons s sep = let (p, ps, e) = split-cons s sep in rw e (unfold join in refl)

join-split_step :
    (c : ℕ) (s : Bytes) (sep : ℕ)
    → join (split s sep) (sep ∷ []) ≡ s
    → join (split (c ∷ s) sep) (sep ∷ []) ≡ c ∷ s
unfolding split
join-split_step c s sep ih = elim (Bool-cases (c == sep)) [
  | inl e ↦ rw (e, join-nil_cons s sep, ih) (ap (λ x. x ∷ s) (sym ((==_iff c sep).0 e)))
  | inr e ↦ rw (e, join-push_head, ih)
]

-- Joining the parts gives the text back.
pub join-split : (s : Bytes) (sep : ℕ) → join (split s sep) (sep ∷ []) ≡ s
join-split [] sep = unfold join split in refl
join-split (c ∷ s) sep = join-split_step c s sep (join-split s sep)

push_head-All-lacks :
    (c sep : ℕ) (ps : List Bytes)
    → (c == sep) ≡ false
    → All (λ p. lacks sep p ≡ true) ps
    → All (λ p. lacks sep p ≡ true) (push_head c ps)
push_head-All-lacks c sep [] e h = (rw e refl, tt)
push_head-All-lacks c sep (p ∷ ps) e (hp, h) = (rw (e, hp) refl, h)

split-All-lacks_step :
    (c : ℕ) (s : Bytes) (sep : ℕ)
    → All (λ p. lacks sep p ≡ true) (split s sep)
    → All (λ p. lacks sep p ≡ true) (split (c ∷ s) sep)
unfolding split
split-All-lacks_step c s sep ih = elim (Bool-cases (c == sep)) [
  | inl e ↦ rw e (refl, ih)
  | inr e ↦ rw (e, if◌then◌else◌) (push_head-All-lacks c sep (split s sep) e ih)
]

-- No part holds the separator.
pub split-All-lacks : (s : Bytes) (sep : ℕ) → All (λ p. lacks sep p ≡ true) (split s sep)
unfolding split
split-All-lacks [] sep = (refl, tt)
split-All-lacks (c ∷ s) sep = split-All-lacks_step c s sep (split-All-lacks s sep)
