-- ===== src/Version/Hash.antt =====
-- What BuildHash returns, over all calls of a process.
use gklog.Base.{
  ℕ, zero, suc, List, [], ◌∷◌, Option, none, some, Bool, true, ◌≡◌, refl, ap, ◌⊎◌, inl, inr,
  Option-cases, arith, length, take, map, all, All, ◌≤◌,
}
use gklog.Text.{Bytes, codes}
use gklog.Text.Hex.{is_lower_hex, encode_hex, IsByte, length-encode_hex, encode_hex-is_lower_hex}
use gklog.Version.{Binary, hash_text, hash_opened, hash_executable, compute_build_hash, build_hash}

-- A sum of SHA-256 has 32 bytes.
pub record IsSha256 {W : Type 0} (binary : Binary W) : Type 0 where
  pub summed :
      (f : ℕ) (w : W) (sum : Bytes)
      → (binary.sum_of f w).0 ≡ some sum
      → (length sum ≡ 32) × All IsByte sum

-- A name of a build: 12 hexadecimal digits, or the word for none.
abbrev pub IsBuildName : Bytes → Type 0
IsBuildName hash = (hash ≡ codes "unknown") ⊎ ((length hash ≡ 12) × (all is_lower_hex hash ≡ true))

length-take_of_long {ℓ} :
    {A : Type ℓ} (n : ℕ) (xs : List A) → n ≤ length xs → length (take n xs) ≡ n
length-take_of_long zero xs h = refl
length-take_of_long (suc n) [] h = absurd (omega arith)
length-take_of_long (suc n) (x ∷ xs) h = ap (λ k. suc k) (length-take_of_long n xs (omega arith))

all-take : (test : ℕ → Bool) (n : ℕ) (s : Bytes) → all test s ≡ true → all test (take n s) ≡ true
all-take test zero s h = refl
all-take test (suc n) [] h = refl
all-take test (suc n) (c ∷ s) h = ground (arith, all-take test n s)

-- What the process does between its calls, applied in turn.
abbrev pub go_through : {W : Type 0} → List (W → W) → W → W
go_through [] w = w
go_through (f ∷ fs) w = go_through fs (f w)

module _ {W : Type 0} (binary : Binary W) where
  -- A call after each of the steps, and the values of all of them.
  unfoldable pub hash_calls : List (W → W) → Option Bytes → W → List Bytes × W
  hash_calls [] once w = ([], w)
  hash_calls (f ∷ fs) once w =
      let ((hash, once'), w') = build_hash binary once (f w) in
      let (hashes, w'') = hash_calls fs once' w' in (hash ∷ hashes, w'')

  hash_calls-later :
      (fs : List (W → W)) (hash : Bytes) (w : W)
      → hash_calls fs (some hash) w ≡ (map (λ _. hash) fs, go_through fs w)
  unfolding hash_calls build_hash
  hash_calls-later [] hash w = refl
  hash_calls-later (f ∷ fs) hash w = ap (λ x. (hash ∷ x.0, x.1)) (hash_calls-later fs hash (f w))

  module _ (sha : IsSha256 binary) where
    hash_text-IsBuildName : (f : ℕ) (w : W) → IsBuildName (hash_text (binary.sum_of f w).0)
    hash_text-IsBuildName f w = elim (Option-cases (binary.sum_of f w).0) [
      | inl e ↦ rw e (inl refl)
      | inr (sum, e) ↦
          let (size, bytes) = sha.summed f w sum e in
          rw e (
            inr (
              length-take_of_long 12 (encode_hex sum) (omega (arith, length-encode_hex sum)),
              all-take is_lower_hex 12 (encode_hex sum) (encode_hex-is_lower_hex sum bytes),
            ))
    ]

    hash_opened-IsBuildName : (o : Option ℕ × W) → IsBuildName (hash_opened binary o).0
    unfolding hash_opened
    hash_opened-IsBuildName (none, w) = inl refl
    hash_opened-IsBuildName (some f, w) = hash_text-IsBuildName f w

    hash_executable-IsBuildName : (o : Option Bytes × W) → IsBuildName (hash_executable binary o).0
    unfolding hash_executable
    hash_executable-IsBuildName (none, w) = inl refl
    hash_executable-IsBuildName (some exe, w) = hash_opened-IsBuildName (binary.open_file exe w)

    -- Whatever happens between the calls of BuildHash, also to the executable file: all of them
    -- return what the first one computed, which is 12 hexadecimal digits or the word unknown, and
    -- none but the first acts on the world.
    pub build_hash-once :
        (f : W → W) (fs : List (W → W)) (w : W)
        → let (hash, w') = compute_build_hash binary (f w) in
          IsBuildName hash
          × (hash_calls (f ∷ fs) none w ≡ (hash ∷ map (λ _. hash) fs, go_through fs w'))
    unfolding hash_calls build_hash compute_build_hash
    build_hash-once f fs w =
        let (hash, w') = hash_executable binary (binary.executable (f w)) in
        (
          hash_executable-IsBuildName (binary.executable (f w)),
          ap (λ x. (hash ∷ x.0, x.1)) (hash_calls-later fs hash w'),
        )
