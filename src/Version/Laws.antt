-- ===== src/Version/Laws.antt =====
-- What a stamped build says of itself.
use gklog.Base.{
  ℕ, suc, zero, List, [], ◌∷◌, ◌++◌, none, true, false, ◌≡◌, inl, inr, refl, arith, ltb, length,
  take, if◌then◌else◌, is_empty, Bool-cases, ap,
}
use gklog.Text.{Bytes, codes, same, same_iff}
use gklog.Text.Trim.{trim_space}
use gklog.Version.{
  Stamp, short_commit, version_string, equal_fold, missing_build_metadata_value,
  build_metadata_valid, init,
}

missing-unknown : missing_build_metadata_value (codes "unknown") ≡ true
unfolding missing_build_metadata_value equal_fold trim_space
missing-unknown = refl

-- A value that is not missing is not the word of an unstamped build.
not-unknown :
    (value : Bytes)
    → missing_build_metadata_value value ≡ false
    → same value (codes "unknown") ≡ false
not-unknown value h = elim (Bool-cases (same value (codes "unknown"))) [
  | inl e ↦
      let (to, _) = same_iff value (codes "unknown") in
      let e2 = ap missing_build_metadata_value (to e) in ground (arith, e2, missing-unknown)
  | inr e ↦ e
]

take-of_short {ℓ} : {A : Type ℓ} (n : ℕ) (xs : List A) → ltb n (length xs) ≡ false → take n xs ≡ xs
take-of_short zero [] h = refl
take-of_short zero (x ∷ xs) h = ground arith
take-of_short (suc n) [] h = refl
take-of_short (suc n) (x ∷ xs) h = ap (λ t. x ∷ t) (take-of_short n xs (ground arith))

short_commit-of_known : (c : Bytes) → same c (codes "unknown") ≡ false → short_commit c ≡ take 12 c
unfolding short_commit
short_commit-of_known c h = elim (Bool-cases (ltb 12 (length c))) [
  | inl e ↦ ground arith
  | inr e ↦ ground (arith, e, take-of_short 12 c e)
]

-- What `build_metadata_valid` tells of a stamp.
valid-parts :
    (s : Stamp)
    → build_metadata_valid s ≡ true
    → ((missing_build_metadata_value s.commit ≡ false)
        × (missing_build_metadata_value s.build_time ≡ false))
unfolding build_metadata_valid
valid-parts s h = ground arith

valid-of_init : (s : Stamp) → init s ≡ none → build_metadata_valid s ≡ true
unfolding init
valid-of_init s h = elim (Bool-cases (build_metadata_valid s)) [
  | inl e ↦ e
  | inr e ↦ ground (arith, e)
]

-- If init accepts the stamped variables and the version is stamped, the version string is the
-- version, a space, the first 12 bytes of the commit, a mark iff the tree was dirty, and the time
-- of the build.
pub version_string-of_valid :
    (s : Stamp)
    → init s ≡ none
    → same s.version (codes "unknown") ≡ false
    → is_empty s.version ≡ false
    → (version_string s
        ≡ (if same s.dirty (codes "true")
            then (s.version ++ (codes " " ++ take 12 s.commit)) ++ codes "+dirty"
            else s.version ++ (codes " " ++ take 12 s.commit))
          ++ (codes " built " ++ s.build_time))
unfolding version_string
version_string-of_valid s h v w =
    let (a, b) = valid-parts s (valid-of_init s h) in
    let na = not-unknown s.commit a in
    let nb = not-unknown s.build_time b in rw (short_commit-of_known s.commit na) (ground arith)
