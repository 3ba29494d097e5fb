-- ===== src/LockedWriter/Turns/Rest.antt =====
-- The rest of a Write from one of its stages on, and writers set one at a time.
use gklog.Base.{
  ℕ, Option, none, some, true, false, ◌==◌, ◌≡◌, inl, inr, refl, ==_iff, arith, Bool-cases,
}
use mathlib.Core.Path.{fun_ext}
use gklog.Text.{Bytes, codes}
use gklog.Errors.{Error, locked_write_error}
use gklog.LockedWriter.{
  FileOps, LockedWriter, refresh_if, finish, ready, after_refresh, after_lock, prepare,
  write_prepared, write,
}
use gklog.LockedWriter.Turns.{
  Stage, locked, refreshed, written, leaving, Turn, goes, returns, after_refresh_stage, advance,
  set,
}

pub set-set : {A : Type 0} (i : ℕ) (x y : A) (f : ℕ → A) → set i y (set i x f) ≡ set i y f
set-set i x y f =
    fun_ext (λ j. elim (Bool-cases (j == i)) [ inl e ↦ rw e refl | inr e ↦ rw e refl ])

pub set_same : {A : Type 0} (i : ℕ) (x : A) (f : ℕ → A) → set i x f i ≡ x
set_same i x f = let e : (i == i) ≡ true = ground arith in rw e refl

pub set_other : {A : Type 0} (i j : ℕ) (x : A) (f : ℕ → A) → (j == i) ≡ false → set i x f j ≡ f j
set_other i j x f e = rw e refl

pub set_self : {A : Type 0} (i : ℕ) (f : ℕ → A) → set i (f i) f ≡ f
set_self i f = fun_ext (λ j. elim (Bool-cases (j == i)) [
  | inl e ↦ let q : j ≡ i = (==_iff j i).0 e in rw (e, q) refl
  | inr e ↦ rw e refl
])

-- The rest of a Write from a stage on, without pause.
unfoldable pub rest :
    {W : Type 0} → FileOps W → Stage → LockedWriter → W → ((ℕ × Option Error) × LockedWriter) × W
unfolding write_prepared after_refresh refresh_if finish
rest ops (locked p) lw w = write_prepared ops p (after_refresh ops (refresh_if ops lw w))
rest ops (refreshed p) lw w = write_prepared ops p (ready lw w)
rest ops (written r) lw w = let (out, w') = finish ops lw r w in (out, ops.unlock w')
rest ops (leaving r) lw w = ((r, lw), ops.unlock w)

abbrev pub rest_of :
    {W : Type 0} → FileOps W → (Turn × LockedWriter) × W → ((ℕ × Option Error) × LockedWriter) × W
rest_of ops ((goes s, lw), w) = rest ops s lw w
rest_of ops ((returns r, lw), w) = ((r, lw), w)

rest_after_refresh :
    {W : Type 0} (ops : FileOps W) (p : Bytes) (x : (Option Error × LockedWriter) × W)
    → rest_of ops (after_refresh_stage p x) ≡ write_prepared ops p (after_refresh ops x)
unfolding rest after_refresh write_prepared
rest_after_refresh ops p ((none, lw), w) = refl
rest_after_refresh ops p ((some e, lw), w) = refl

-- A stage leaves the result of the whole as it is.
pub rest-advance :
    {W : Type 0} (ops : FileOps W) (s : Stage) (lw : LockedWriter) (w : W)
    → rest_of ops (advance ops s lw w) ≡ rest ops s lw w
unfolding rest advance write_prepared
rest-advance ops (locked p) lw w = rest_after_refresh ops p (refresh_if ops lw w)
rest-advance ops (refreshed p) lw w = refl
rest-advance ops (written r) lw w = refl
rest-advance ops (leaving r) lw w = refl

-- A Write begins with the lock.
abbrev pub begun :
    {W : Type 0}
    → FileOps W
    → Bytes
    → LockedWriter
    → Option Error × W
    → ((ℕ × Option Error) × LockedWriter) × W
begun ops p lw (none, w) = rest ops (locked p) lw w
begun ops p lw (some e, w) = (((0, some (locked_write_error (codes "lock") e)), lw), w)

after_lock-begun :
    {W : Type 0} (ops : FileOps W) (lw : LockedWriter) (p : Bytes) (l : Option Error × W)
    → write_prepared ops p (after_lock ops lw l) ≡ begun ops p lw l
unfolding rest after_lock write_prepared
after_lock-begun ops lw p (none, w) = refl
after_lock-begun ops lw p (some e, w) = refl

pub write-begun :
    {W : Type 0} (ops : FileOps W) (lw : LockedWriter) (p : Bytes) (w : W)
    → write ops lw p w ≡ begun ops p lw (ops.lock w)
unfolding write prepare
write-begun ops lw p w = after_lock-begun ops lw p (ops.lock w)
