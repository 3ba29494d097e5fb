-- ===== src/LockedWriter/Turns/Alone.antt =====
-- Which processes are between Lock and Unlock.
use gklog.Base.{
  ℕ, List, [], ◌∷◌, Option, none, some, false, ◌==◌, ◌≡◌, inl, inr, refl, sym, ap, ◌∙◌, ==_iff,
  Option-cases, Bool-cases,
}
use gklog.Text.{Bytes}
use gklog.Errors.{Error}
use gklog.LockedWriter.{FileOps, LockedWriter}
use gklog.LockedWriter.Turns.{
  Stage, locked, Turn, goes, returns, advance, Processes, Event, calls, goes_on, closes, begin,
  moved, may_call, call_if, go_on, close_if, step, run,
}
use gklog.LockedWriter.Turns.Rest.{set_same, set_other}
use gklog.LockedWriter.Turns.Apart.{close-world}
use gklog.LockedWriter.Turns.Lock.{IsExclusive, Held, advance-Held}

module _ {W : Type 0} (ops : ℕ → FileOps W) (holder : W → Option ℕ)
    (laws : IsExclusive ops holder) where
  -- A process in a Write has the lock.
  abbrev IsHeld : Processes W → Type 0
  IsHeld t = (j : ℕ) (s : Stage) → t.stages j ≡ some s → holder t.world ≡ some j

  begin-IsHeld :
      (i : ℕ) (p : Bytes) (t : Processes W) (l : Option Error × W)
      → ((j : ℕ) → t.stages j ≡ none)
      → (l.0 ≡ none → holder l.1 ≡ some i)
      → IsHeld (begin ops holder i p t l)
  unfolding begin
  begin-IsHeld i p t (none, w) q h j s e = elim (Bool-cases (j == i)) [
    | inl b ↦ let k : j ≡ i = (==_iff j i).0 b in h refl ∙ ap some (sym k)
    | inr b ↦ let m = set_other i j (some (locked p)) t.stages b ∙ q j in cc
  ]
  begin-IsHeld i p t (some x, w) q h j s e = let m = q j in cc

  moved-IsHeld :
      (i : ℕ) (t : Processes W) (v : (Turn × LockedWriter) × W)
      → ((j : ℕ) → (j == i) ≡ false → t.stages j ≡ none)
      → Held holder i v
      → IsHeld (moved ops holder i t v)
  unfolding moved
  moved-IsHeld i t ((goes s, lw), w) q h j u e = elim (Bool-cases (j == i)) [
    | inl b ↦ let k : j ≡ i = (==_iff j i).0 b in h ∙ ap some (sym k)
    | inr b ↦ let m = set_other i j (some s) t.stages b ∙ q j b in cc
  ]
  moved-IsHeld i t ((returns r, lw), w) q h j u e = elim (Bool-cases (j == i)) [
    | inl b ↦ let k : j ≡ i = (==_iff j i).0 b in let m = set_same i none t.stages in cc
    | inr b ↦ let m = set_other i j none t.stages b ∙ q j b in cc
  ]

  none_in_write : (t : Processes W) → IsHeld t → holder t.world ≡ none → (j : ℕ) → t.stages j ≡ none
  none_in_write t h f j = elim (Option-cases (t.stages j)) [
    | inl e ↦ e
    | inr (s, e) ↦ let k = h j s e in cc
  ]

  no_other_in_write :
      (t : Processes W) (i j : ℕ) (s : Stage)
      → IsHeld t
      → t.stages i ≡ some s
      → (j == i) ≡ false
      → t.stages j ≡ none
  no_other_in_write t i j s h e b = elim (Option-cases (t.stages j)) [
    | inl q ↦ q
    | inr (u, q) ↦
        let x = h i s e in let y = h j u q in let k : j ≡ i = cc in let m = (==_iff j i).1 k in cc
  ]

  call_if-IsHeld :
      (o : Option Stage) (x : Option ℕ) (i : ℕ) (p : Bytes) (t : Processes W)
      → holder t.world ≡ x
      → IsHeld t
      → IsHeld (call_if ops holder (may_call o x) i p t)
  unfolding call_if
  call_if-IsHeld none none i p t f h =
      begin-IsHeld i p t ((ops i).lock t.world) (none_in_write t h f) (laws.lock-taken i t.world f)
  call_if-IsHeld none (some k) i p t f h = h
  call_if-IsHeld (some s) x i p t f h = h

  go_on-IsHeld :
      (o : Option Stage) (i : ℕ) (t : Processes W)
      → t.stages i ≡ o
      → IsHeld t
      → IsHeld (go_on ops holder i o t)
  unfolding go_on
  go_on-IsHeld none i t e h = h
  go_on-IsHeld (some s) i t e h =
      moved-IsHeld i t (advance (ops i) s (t.writers i) t.world)
        (λ j b. no_other_in_write t i j s h e b)
        (advance-Held ops holder laws i s (t.writers i) t.world (h i s e))

  close_if-IsHeld :
      (o : Option Stage) (i : ℕ) (t : Processes W) → IsHeld t → IsHeld (close_if ops holder o i t)
  unfolding close_if
  close_if-IsHeld none i t h j s e =
      ap holder (close-world (ops i) (t.writers i) t.world) ∙ laws.close-holder i t.world ∙ h j s e
  close_if-IsHeld (some u) i t h j s e = h j s e

  step-IsHeld : (e : Event) (t : Processes W) → IsHeld t → IsHeld (step ops holder e t)
  unfolding step
  step-IsHeld (calls i p) t h = call_if-IsHeld (t.stages i) (holder t.world) i p t refl h
  step-IsHeld (goes_on i) t h = go_on-IsHeld (t.stages i) i t refl h
  step-IsHeld (closes i) t h = close_if-IsHeld (t.stages i) i t h

  run-IsHeld : (events : List Event) (t : Processes W) → IsHeld t → IsHeld (run ops holder events t)
  unfolding run
  run-IsHeld [] t h = h
  run-IsHeld (e ∷ events) t h = run-IsHeld events (step ops holder e t) (step-IsHeld e t h)

  -- Processes that begin outside of Write: at any time at most one is between Lock and Unlock.
  pub run_alone :
      (events : List Event) (t : Processes W) (i j : ℕ) (s s' : Stage)
      → ((k : ℕ) → t.stages k ≡ none)
      → (run ops holder events t).stages i ≡ some s
      → (run ops holder events t).stages j ≡ some s'
      → i ≡ j
  run_alone events t i j s s' q a b =
      let h = run-IsHeld events t (λ k u e. let m = q k in cc) in
      let x = h i s a in let y = h j s' b in cc
