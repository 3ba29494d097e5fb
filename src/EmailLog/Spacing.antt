-- ===== src/EmailLog/Spacing.antt =====
-- Over a whole run two emails about one message are never closer than the cooldown.
use native.Mathlib.Nat.{le_trans}
use gklog.Base.{
  ℕ, ◌+◌, ◌≤◌, ◌<◌, ◌^◌, leb, if◌then◌else◌, Bool, List, [], ◌∷◌, Option, some, true, false, not,
  ◌&&◌, ◌≡◌, refl, subst, ◌∙◌, arith, Bool-cases, inl, inr, All,
}
use gklog.Base.Int.{pos, leb_ℤ}
use gklog.Text.{Bytes, same, same_iff}
use gklog.Errors.{Error}
use gklog.Ctx.{Ctx}
use gklog.Time.{sub_time}
use gklog.EmailLog.{Email, Times, last_sent, note_sent, suppressed}
use gklog.EmailLog.Cooldown.{Watch, Event, step, run, step-sent, step-times, last_sent-note_sent}

-- Each email about `m` among these was sent at least `c` nanoseconds before `t`.
abbrev pub Apart : ℕ → Bytes → ℕ → Times → Type 0
Apart c m t [] = Unit
Apart c m t ((j, u) ∷ sent) = (j ≡ m → u + c ≤ t) × Apart c m t sent

-- Any two emails about one message are at least `c` nanoseconds apart.
abbrev pub Spaced : ℕ → Times → Type 0
Spaced c [] = Unit
Spaced c ((m, t) ∷ sent) = Apart c m t sent × Spaced c sent

last_sent-hit :
    (m j : Bytes) (u : ℕ) (sent : Times) → same j m ≡ true → last_sent ((j, u) ∷ sent) m ≡ some u
unfolding last_sent
last_sent-hit m j u sent e = rw e

last_sent-miss :
    (m j : Bytes) (u : ℕ) (sent : Times)
    → same j m ≡ false
    → last_sent ((j, u) ∷ sent) m ≡ last_sent sent m
unfolding last_sent
last_sent-miss m j u sent e = rw e

no_match : (m j : Bytes) → same j m ≡ false → j ≡ m → ⊥
no_match m j e q = ground (arith, (same_iff j m).1 q)

module _ (c : ℕ) where
  Apart-later : (m : Bytes) (t u : ℕ) (sent : Times) → u ≤ t → Apart c m u sent → Apart c m t sent
  Apart-later m t u [] h a = tt
  Apart-later m t u ((j, v) ∷ sent) h (a, as') =
      (λ e. le_trans (a e) h, Apart-later m t u sent h as')

  Apart-of_newest :
      (m : Bytes) (t : ℕ) (sent : Times)
      → Spaced c sent
      → ((u : ℕ) → last_sent sent m ≡ some u → u + c ≤ t)
      → Apart c m t sent
  Apart-of_newest m t [] s h = tt
  Apart-of_newest m t ((j, u) ∷ sent) (a, s) h = elim (Bool-cases (same j m)) [
    | inl e ↦
        let bound = h u (last_sent-hit m j u sent e) in
        (
          λ _. bound,
          Apart-later m t u sent (omega arith)
              (subst (λ k. Apart c k u sent) ((same_iff j m).0 e) a),
        )
    | inr e ↦ (
      λ q. absurd (no_match m j e q),
      Apart-of_newest m t sent s (λ v p. h v (last_sent-miss m j u sent e ∙ p)),
    )
  ]

  gap_of_test : (last now : ℕ) → suppressed (some last) now (pos c) ≡ false → last + c ≤ now
  unfolding suppressed sub_time
  gap_of_test last now h = ground arith

-- Every email about `m` among these was sent at least `c` nanoseconds before `t`.
abbrev pub quiet_since : ℕ → Bytes → ℕ → Times → Bool
quiet_since c m t [] = true
quiet_since c m t ((j, u) ∷ sent) =
    (if same j m then leb (u + c) t else true) && quiet_since c m t sent

module _ (c : ℕ) (fits : c < 2 ^ 63) where
  suppressed-gap : (last now : ℕ) → not (suppressed (some last) now (pos c)) ≡ leb (last + c) now
  unfolding suppressed sub_time
  suppressed-gap last now = ground arith

  Apart-quiet_since :
      (m : Bytes) (t u : ℕ) (sent : Times)
      → u ≤ t
      → Apart c m u sent
      → quiet_since c m t sent ≡ true
  Apart-quiet_since m t u [] h a = refl
  Apart-quiet_since m t u ((j, v) ∷ sent) h (a, as') =
      let rest = Apart-quiet_since m t u sent h as' in
      elim (Bool-cases (same j m)) [
        | inl e ↦ let b = a ((same_iff j m).0 e) in ground (arith, e, b, rest)
        | inr e ↦ rw (e, rest) refl
      ]

  quiet_since-suppressed :
      (m : Bytes) (t : ℕ) (sent : Times)
      → Spaced c sent
      → quiet_since c m t sent ≡ not (suppressed (last_sent sent m) t (pos c))
  unfolding last_sent
  quiet_since-suppressed m t [] s = unfold suppressed in refl
  quiet_since-suppressed m t ((j, u) ∷ sent) (a, s) = elim (Bool-cases (same j m)) [
    | inl e ↦
        let gap = suppressed-gap u t in
        elim (Bool-cases (leb (u + c) t)) [
          | inl b ↦
              let earlier = subst (λ k. Apart c k u sent) ((same_iff j m).0 e) a in
              let rest = Apart-quiet_since m t u sent (ground (arith, b)) earlier in
              rw (e, gap, b, rest) refl
          | inr b ↦ rw (e, gap, b) refl
        ]
    | inr e ↦ rw e (quiet_since-suppressed m t sent s)
  ]

-- The map of times knows the last email about each message, and emails keep their distance.
pub record IsTracked (c : ℕ) (times : Times) (w : Watch) : Type 0 where
  pub tracked : (k : Bytes) → last_sent times k ≡ last_sent w.sent k
  pub spaced : Spaced c w.sent

module _ (c : ℕ) (times : Times) (w : Watch) (m : Bytes) (t : ℕ) (i : IsTracked c times w) where
  tracked_after : (k : Bytes) → last_sent (note_sent times m t) k ≡ last_sent ((m, t) ∷ w.sent) k
  tracked_after k = rw last_sent-note_sent (elim (Bool-cases (same m k)) [
    | inl e ↦ rw (e, last_sent-hit k m t w.sent e)
    | inr e ↦ rw (e, last_sent-miss k m t w.sent e) (i.tracked k)
  ])

  Apart-after : suppressed (last_sent times m) t (pos c) ≡ false → Apart c m t w.sent
  Apart-after e =
      Apart-of_newest c m t w.sent i.spaced
        λ u p. gap_of_test c u t (subst (λ o. suppressed o t (pos c) ≡ false) (i.tracked m ∙ p) e)

-- A record that is sent is not cooling down.
quiet :
    (e : Event) (times : Times) (c : ℕ)
    → e.by.cooldown ≡ pos c
    → (leb_ℤ e.by.threshold e.of.level
        && not (suppressed (last_sent times e.of.message) e.at e.by.cooldown))
      ≡ true
    → suppressed (last_sent times e.of.message) e.at (pos c) ≡ false
quiet e times c h b = rw (← h) (ground arith)

module _ (outcome : Email → Option Error) (rfc3339 : ℕ → Bytes) (ctx : Ctx) (c : ℕ) where
  step-IsTracked :
      (e : Event) (times : Times) (w : Watch)
      → e.by.cooldown ≡ pos c
      → IsTracked c times w
      → IsTracked c
          (step outcome rfc3339 ctx e (times, w)).0
          (step outcome rfc3339 ctx e (times, w)).1
  step-IsTracked e times w h i =
      let m = e.of.message in
      let due =
        leb_ℤ e.by.threshold e.of.level
        && not (suppressed (last_sent times m) e.at e.by.cooldown) in
      elim (Bool-cases due) [
        | inl b ↦ record {
          tracked = λ k.
              rw
                (
                  step-times outcome rfc3339 ctx e times w,
                  step-sent outcome rfc3339 ctx e times w,
                  b,
                )
                (tracked_after c times w m e.at i k);
          spaced =
              rw (step-sent outcome rfc3339 ctx e times w, b)
                (Apart-after c times w m e.at i (quiet e times c h b), i.spaced);
        }
        | inr b ↦ record {
          tracked = λ k.
              rw
                (
                  step-times outcome rfc3339 ctx e times w,
                  step-sent outcome rfc3339 ctx e times w,
                  b,
                )
                (i.tracked k);
          spaced = rw (step-sent outcome rfc3339 ctx e times w, b) i.spaced;
        }
      ]

  run-IsTracked :
      (events : List Event) (times : Times) (w : Watch)
      → All (λ e. e.by.cooldown ≡ pos c) events
      → IsTracked c times w
      → let (times', w') = run outcome rfc3339 ctx events (times, w) in IsTracked c times' w'
  unfolding run
  run-IsTracked [] times w h i = i
  run-IsTracked (e ∷ events) times w (he, h) i =
      let (times', w') = step outcome rfc3339 ctx e (times, w) in
      run-IsTracked events times' w' h (step-IsTracked e times w he i)

  abbrev fresh : ℕ → Bytes → Watch
  fresh reading current = record { reading = reading; current = current; sent = [] }

  fresh-IsTracked : (reading : ℕ) (current : Bytes) → IsTracked c [] (fresh reading current)
  fresh-IsTracked reading current = record { tracked = λ k. refl; spaced = tt }

  -- Whatever records are handled by whatever clones of a new handler, all with its cooldown, at
  -- whatever times, and whether sending fails or not: any two emails about one message are at least
  -- the cooldown apart.
  pub run-Spaced :
      (events : List Event) (reading : ℕ) (current : Bytes)
      → All (λ e. e.by.cooldown ≡ pos c) events
      → Spaced c
          (run outcome rfc3339 ctx events
            ([], record { reading = reading; current = current; sent = [] })).1.sent
  run-Spaced events reading current h =
      (run-IsTracked events [] _ h (fresh-IsTracked reading current)).spaced

  -- After any run of a new handler and its clones, all with one cooldown that fits in 64 bits: a record
  -- is sent exactly if it reaches the threshold and every earlier email about its message was sent at
  -- least the cooldown ago, also if sending fails.
  pub run-sent :
      (events : List Event) (reading : ℕ) (current : Bytes) (e : Event)
      → All (λ e. e.by.cooldown ≡ pos c) events
      → e.by.cooldown ≡ pos c
      → c < 2 ^ 63
      → let st =
          run outcome rfc3339 ctx events
            ([], record { reading = reading; current = current; sent = [] }) in
        (step outcome rfc3339 ctx e st).1.sent ≡ (
          if leb_ℤ e.by.threshold e.of.level && quiet_since c e.of.message e.at st.1.sent
          then (e.of.message, e.at) ∷ st.1.sent
          else st.1.sent)
  run-sent events reading current e h he hc =
      let (times, w) = run outcome rfc3339 ctx events ([], fresh reading current) in
      let i = run-IsTracked events [] _ h (fresh-IsTracked reading current) in
      step-sent outcome rfc3339 ctx e times w
      ∙ rw
          (
            he,
            i.tracked e.of.message,
            quiet_since-suppressed c hc e.of.message e.at w.sent i.spaced,
          )
          refl
