-- ===== src/LockedWriter/Turns/Lock.antt =====
-- What the processes of LockedWriter.Turns assume of the lock, and that a stage keeps it or gives it
-- back.
use gklog.Base.{ℕ, Option, none, some, ◌≡◌, inl, inr, refl, ◌∙◌, Bool-cases, Option-cases}
use gklog.Text.{Bytes, codes}
use gklog.Errors.{Error}
use gklog.LockedWriter.{
  FileInfo, Stat, is_same, FileOps, LockedWriter, refresh_if, finish, refresh, reopen, after_stat,
  remember, wrapped, found, missing, failed,
}
use gklog.LockedWriter.Turns.{
  Stage, locked, refreshed, written, leaving, Turn, goes, returns, after_refresh_stage, advance,
}

-- The lock of the processes: it is free or one process has it, Lock that finds it free takes it or
-- fails, and only Unlock gives it back.
pub record IsExclusive {W : Type 0} (ops : ℕ → FileOps W) (holder : W → Option ℕ) : Type 0 where
  pub lock-taken :
      (i : ℕ) (w : W)
      → holder w ≡ none
      → ((ops i).lock w).0 ≡ none
      → holder ((ops i).lock w).1 ≡ some i
  pub lock-failed :
      (i : ℕ) (w : W) (e : Error)
      → holder w ≡ none
      → ((ops i).lock w).0 ≡ some e
      → holder ((ops i).lock w).1 ≡ none
  pub unlock-holder : (i : ℕ) (w : W) → holder ((ops i).unlock w) ≡ none
  pub stat-holder : (i : ℕ) (w : W) → holder ((ops i).stat w).1 ≡ holder w
  pub write-holder : (i : ℕ) (p : Bytes) (w : W) → holder ((ops i).write p w).1 ≡ holder w
  pub close-holder : (i : ℕ) (w : W) → holder ((ops i).close w).1 ≡ holder w

-- After a stage the process has the lock, or has given it back on its way out.
abbrev pub Held : {W : Type 0} → (W → Option ℕ) → ℕ → (Turn × LockedWriter) × W → Type 0
Held holder i ((goes s, lw), w) = holder w ≡ some i
Held holder i ((returns r, lw), w) = holder w ≡ none

module _ {W : Type 0} (ops : ℕ → FileOps W) (holder : W → Option ℕ)
    (laws : IsExclusive ops holder) where
  wrapped-world : (op : Bytes) (c : Option Error × W) → (wrapped op c).1 ≡ c.1
  wrapped-world op (none, w) = refl
  wrapped-world op (some e, w) = refl

  reopen-holder :
      (i : ℕ) (last : Option FileInfo) (w : W) → holder (reopen (ops i) last w).1 ≡ holder w
  unfolding reopen
  reopen-holder i last w =
      rw (wrapped-world (codes "reopen") ((ops i).close w)) (laws.close-holder i w)

  after_stat-holder :
      (i : ℕ) (last : Option FileInfo) (s : Stat) (w : W)
      → holder (after_stat (ops i) last s w).1 ≡ holder w
  unfolding after_stat
  after_stat-holder i last (failed e) w = refl
  after_stat-holder i last (missing e) w = reopen-holder i last w
  after_stat-holder i last (found info) w = elim (Bool-cases (is_same last (found info))) [
    | inl e ↦ rw e refl
    | inr e ↦ rw e (reopen-holder i last w)
  ]

  refresh_if-holder :
      (i : ℕ) (lw : LockedWriter) (w : W) → holder (refresh_if (ops i) lw w).1 ≡ holder w
  unfolding refresh_if refresh
  refresh_if-holder i lw w = elim (Option-cases lw.rotation) [
    | inl e ↦ rw e refl
    | inr (last, e) ↦
        rw e (after_stat-holder i last ((ops i).stat w).0 ((ops i).stat w).1 ∙ laws.stat-holder i w)
  ]

  finish-holder :
      (i : ℕ) (lw : LockedWriter) (r : ℕ × Option Error) (w : W)
      → holder (finish (ops i) lw r w).1 ≡ holder w
  unfolding finish remember
  finish-holder i lw (n, some e) w = refl
  finish-holder i lw (n, none) w = elim (Option-cases lw.rotation) [
    | inl e ↦ rw e refl
    | inr (last, e) ↦ rw e (laws.stat-holder i w)
  ]

  after_refresh_stage-Held :
      (i : ℕ) (p : Bytes) (x : (Option Error × LockedWriter) × W)
      → holder x.1 ≡ some i
      → Held holder i (after_refresh_stage p x)
  after_refresh_stage-Held i p ((none, lw), w) h = h
  after_refresh_stage-Held i p ((some e, lw), w) h = h

  pub advance-Held :
      (i : ℕ) (s : Stage) (lw : LockedWriter) (w : W)
      → holder w ≡ some i
      → Held holder i (advance (ops i) s lw w)
  unfolding advance
  advance-Held i (locked p) lw w h =
      after_refresh_stage-Held i p (refresh_if (ops i) lw w) (refresh_if-holder i lw w ∙ h)
  advance-Held i (refreshed p) lw w h = laws.write-holder i p w ∙ h
  advance-Held i (written r) lw w h = finish-holder i lw r w ∙ h
  advance-Held i (leaving r) lw w h = laws.unlock-holder i w
