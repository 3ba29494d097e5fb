-- ===== src/LockedWriter/Turns/Apart.antt =====
-- The Close of one process and the stages of the Write of another.
use mathlib.Core.Path.{fun_ext}
use gklog.Base.{
  ℕ, Option, none, some, false, ◌==◌, ◌≡◌, refl, sym, subst, ap, Option-cases, ◌∙◌, Bool-cases, inl,
  inr,
}
use gklog.Text.{Bytes, codes}
use gklog.Errors.{Error, locked_write_error}
use gklog.LockedWriter.{
  FileInfo, Stat, found, missing, failed, is_same, FileOps, LockedWriter, wrapped, kept_on, reopen,
  after_stat, refresh, remembered, remember, refresh_if, finish, after_refresh, write_prepared,
  close,
}
use gklog.LockedWriter.Turns.{Stage, locked, refreshed, written, leaving}
use gklog.LockedWriter.Turns.Rest.{rest}

-- An operation has the same result whether it comes before or after a Close, and so has the Close.
abbrev pub Steady : {W A : Type 0} → (W → Option Error × W) → (W → A × W) → W → Type 0
Steady shut op w =
    (op (shut w).1 ≡ ((op w).0, (shut (op w).1).1)) × ((shut (op w).1).0 ≡ (shut w).0)

-- The processes have descriptors of their own: one's Close changes nothing for the others.
pub record IsApart {W : Type 0} (ops : ℕ → FileOps W) : Type 0 where
  pub stat-apart : (i j : ℕ) (w : W) → (i == j) ≡ false → Steady (ops j).close (ops i).stat w
  pub write-apart :
      (i j : ℕ) (p : Bytes) (w : W) → (i == j) ≡ false → Steady (ops j).close ((ops i).write p) w
  pub close-apart : (i j : ℕ) (w : W) → (i == j) ≡ false → Steady (ops j).close (ops i).close w
  pub unlock-apart :
      (i j : ℕ) (w : W) → (i == j) ≡ false → Steady (ops j).close (λ w. (tt, (ops i).unlock w)) w

module _ {W : Type 0} (shut : W → Option Error × W) where
  pure-Steady : {A : Type 0} (a : A) (w : W) → Steady shut (λ w. (a, w)) w
  pure-Steady a w = (refl, refl)

  Steady-of :
      {A : Type 0} (op op' : W → A × W)
      → ((w : W) → op w ≡ op' w)
      → ((w : W) → Steady shut op' w)
      → (w : W) → Steady shut op w
  Steady-of op op' e h w = subst (λ o. Steady shut o w) (sym (fun_ext e)) (h w)

  bind-Steady :
      {A B : Type 0} (op : W → A × W) (next : A → W → B × W)
      → ((w : W) → Steady shut op w)
      → ((a : A) (w : W) → Steady shut (next a) w)
      → (w : W) → Steady shut (λ w. next (op w).0 (op w).1) w
  bind-Steady op next h k w =
      let (e, e') = h w in
      let (q, q') = k (op w).0 (op w).1 in (ap (λ x. next x.0 x.1) e ∙ q, q' ∙ e')

  map-Steady :
      {A B : Type 0} (op : W → A × W) (f : A → B)
      → ((w : W) → Steady shut op w)
      → (w : W) → Steady shut (λ w. (f (op w).0, (op w).1)) w
  map-Steady op f h = bind-Steady op (λ a w. (f a, w)) h (λ a w. pure-Steady (f a) w)

abbrev named : Bytes → Option Error → Option Error
named op none = none
named op (some e) = some (locked_write_error op e)

wrapped_lem : {W : Type 0} (op : Bytes) (c : Option Error × W) → wrapped op c ≡ (named op c.0, c.1)
wrapped_lem op (none, w) = refl
wrapped_lem op (some e, w) = refl

module _ {W : Type 0} (ops : ℕ → FileOps W) (apart : IsApart ops) (i j : ℕ)
    (other : (i == j) ≡ false) where
  abbrev pub shut : W → Option Error × W
  shut w = (ops j).close w

  shut_reopen : Option FileInfo → Option Error → Option Error × Option FileInfo
  shut_reopen last e = (named (codes "reopen") e, kept_on (named (codes "reopen") e) last)

  reopen-Steady : (last : Option FileInfo) (w : W) → Steady shut (reopen (ops i) last) w
  unfolding reopen shut_reopen
  reopen-Steady last =
      Steady-of shut (reopen (ops i) last)
        (λ w. (shut_reopen last ((ops i).close w).0, ((ops i).close w).1))
        (λ w.
          ap (λ x. ((x.0, kept_on x.0 last), x.1)) (wrapped_lem (codes "reopen") ((ops i).close w)))
        (map-Steady shut (ops i).close (shut_reopen last) (λ w. apart.close-apart i j w other))

  after_stat-Steady :
      (last : Option FileInfo) (s : Stat) (w : W) → Steady shut (after_stat (ops i) last s) w
  unfolding after_stat
  after_stat-Steady last (failed e) w = (refl, refl)
  after_stat-Steady last (missing e) w = reopen-Steady last w
  after_stat-Steady last (found info) w = elim (Bool-cases (is_same last (found info))) [
    | inl e ↦ rw e (refl, refl)
    | inr e ↦ rw e (reopen-Steady last w)
  ]

  refresh-Steady : (last : Option FileInfo) (w : W) → Steady shut (refresh (ops i) last) w
  unfolding refresh
  refresh-Steady last =
      bind-Steady shut (ops i).stat (after_stat (ops i) last) (λ w. apart.stat-apart i j w other)
        (after_stat-Steady last)

  as_writer : Option Error × Option FileInfo → Option Error × LockedWriter
  as_writer x = (x.0, record { rotation = some x.1 })

  refresh_if-Steady : (lw : LockedWriter) (w : W) → Steady shut (refresh_if (ops i) lw) w
  unfolding refresh_if as_writer
  refresh_if-Steady lw w = elim (Option-cases lw.rotation) [
    | inl e ↦ rw e (refl, refl)
    | inr (last, e) ↦
        rw e (map-Steady shut (refresh (ops i) last) as_writer (refresh-Steady last) w)
  ]

  abbrev after_write : ℕ → Stat → (ℕ × Option Error) × LockedWriter
  after_write n s =
      ((n, (remembered (ops i) s).0), record { rotation = some (remembered (ops i) s).1 })

  finish-Steady :
      (lw : LockedWriter) (r : ℕ × Option Error) (w : W) → Steady shut (finish (ops i) lw r) w
  unfolding finish remember
  finish-Steady lw (n, some e) w = (refl, refl)
  finish-Steady lw (n, none) w = elim (Option-cases lw.rotation) [
    | inl e ↦ rw e (refl, refl)
    | inr (last, e) ↦
        rw e (map-Steady shut (ops i).stat (after_write n) (λ w. apart.stat-apart i j w other) w)
  ]

  unlock-Steady : {A : Type 0} (a : A) (w : W) → Steady shut (λ w. (a, (ops i).unlock w)) w
  unlock-Steady a w = let (e, e') = apart.unlock-apart i j w other in (ap (λ x. (a, x.1)) e, e')

  written-Steady :
      (lw : LockedWriter) (r : ℕ × Option Error) (w : W)
      → Steady shut (rest (ops i) (written r) lw) w
  unfolding rest
  written-Steady lw r =
      bind-Steady shut (finish (ops i) lw r) (λ out w. (out, (ops i).unlock w)) (finish-Steady lw r)
        unlock-Steady

  refreshed-Steady :
      (p : Bytes) (lw : LockedWriter) (w : W) → Steady shut (rest (ops i) (refreshed p) lw) w
  unfolding rest write_prepared
  refreshed-Steady p lw =
      bind-Steady shut ((ops i).write p) (λ r. rest (ops i) (written r) lw)
        (λ w. apart.write-apart i j p w other) (written-Steady lw)

  after_refresh-Steady :
      (p : Bytes) (x : Option Error × LockedWriter) (w : W)
      → Steady shut (λ w. write_prepared (ops i) p (after_refresh (ops i) (x, w))) w
  unfolding after_refresh rest write_prepared
  after_refresh-Steady p (none, lw) w = refreshed-Steady p lw w
  after_refresh-Steady p (some e, lw) w = unlock-Steady ((0, some e), lw) w

  rest-Steady : (s : Stage) (lw : LockedWriter) (w : W) → Steady shut (rest (ops i) s lw) w
  unfolding rest
  rest-Steady (locked p) lw w =
      bind-Steady shut (refresh_if (ops i) lw)
        (λ x w. write_prepared (ops i) p (after_refresh (ops i) (x, w))) (refresh_if-Steady lw)
        (after_refresh-Steady p) w
  rest-Steady (refreshed p) lw w = refreshed-Steady p lw w
  rest-Steady (written r) lw w = written-Steady lw r w
  rest-Steady (leaving r) lw w = unlock-Steady (r, lw) w

  close-wrapped :
      (lw : LockedWriter) (w : W)
      → close (ops j) lw w ≡ (named (codes "close") (shut w).0, (shut w).1)
  unfolding close
  close-wrapped lw w = wrapped_lem (codes "close") (shut w)

  -- So a Close of another process comes to the same in front of the rest of a Write and behind it.
  pub rest-close :
      (s : Stage) (lw : LockedWriter) (before after : LockedWriter) (w : W)
      → (rest (ops i) s lw (close (ops j) before w).1
          ≡ ((rest (ops i) s lw w).0, (close (ops j) after (rest (ops i) s lw w).1).1))
        × ((close (ops j) after (rest (ops i) s lw w).1).0 ≡ (close (ops j) before w).0)
  rest-close s lw before after w =
      let (e, e') = rest-Steady s lw w in
      let first = close-wrapped before w in
      let last = close-wrapped after (rest (ops i) s lw w).1 in
      (
        ap (λ c. rest (ops i) s lw c.1) first
            ∙ e
            ∙ ap (λ c. ((rest (ops i) s lw w).0, c.1)) (sym last),
        ap (λ c. c.0) last ∙ ap (named (codes "close")) e' ∙ sym (ap (λ c. c.0) first),
      )

pub close-world :
    {W : Type 0} (ops : FileOps W) (lw : LockedWriter) (w : W)
    → (close ops lw w).1 ≡ (ops.close w).1
unfolding close
close-world ops lw w = ap (λ c. c.1) (wrapped_lem (codes "close") (ops.close w))
