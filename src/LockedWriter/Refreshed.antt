-- ===== src/LockedWriter/Refreshed.antt =====
-- What refresh leaves behind: a descriptor on the file that is at the path, or none.
use gklog.Base.{
  Option, none, some, Bool, true, false, ◌≡◌, ◌⊎◌, inl, inr, refl, ◌∙◌, arith, Bool-cases,
}
use gklog.Text.{codes}
use gklog.Errors.{Error}
use gklog.LockedWriter.{
  FileInfo, Stat, found, missing, failed, FileOps, unchanged, wrapped, kept_on, reopen, after_stat,
  refresh,
}
use gklog.LockedWriter.World.{agrees, Tells, IsShared}

-- The descriptor is missing or as `lastFile` says, if there is a `lastFile`.
abbrev pub tracks : Option (Option FileInfo) → Option FileInfo → Bool
tracks none c = false
tracks (some none) c = true
tracks (some (some last)) c = agrees c (some last)

pub tracks_closed : (last c : Option FileInfo) → c ≡ none → tracks (some last) c ≡ true
tracks_closed none c h = refl
tracks_closed (some last) c h = rw h refl

agrees-unchanged :
    (c : Option FileInfo) (last info : FileInfo)
    → agrees c (some last) ≡ true
    → unchanged last info ≡ true
    → agrees c (some info) ≡ true
agrees-unchanged none last info h u = refl
agrees-unchanged (some c) last info h u = ground arith

module _ {W : Type 0} (ops : FileOps W) (laws : IsShared ops) where
  abbrev file : W → Option FileInfo
  file w = laws.file w

  abbrev cached : W → Option FileInfo
  cached w = laws.cached w

  abbrev held : W → Bool
  held w = laws.held w

  -- What refresh leaves: if it succeeds, a descriptor that is good.
  abbrev pub Refreshed : (Option Error × Option FileInfo) × W → Type 0
  Refreshed ((none, last), w) =
      (agrees (cached w) (file w) ≡ true) × (held w ≡ true) × (tracks (some last) (cached w) ≡ true)
  Refreshed ((some e, last), w) = (held w ≡ true) × (tracks (some last) (cached w) ≡ true)

  -- The result of Close, in the part of refresh behind it.
  abbrev closed_with : Option FileInfo → Option Error × W → (Option Error × Option FileInfo) × W
  closed_with last c = let (e, w') = wrapped (codes "reopen") c in ((e, kept_on e last), w')

  closed_with-Refreshed :
      (last before : Option FileInfo) (c : Option Error × W)
      → tracks (some last) before ≡ true
      → held c.1 ≡ true
      → (cached c.1 ≡ none) ⊎ (cached c.1 ≡ before)
      → (c.0 ≡ none → cached c.1 ≡ none)
      → Refreshed (closed_with last c)
  closed_with-Refreshed last before (none, w) t h o d = rw (d refl) (refl, h, refl)
  closed_with-Refreshed last before (some e, w) t h (inl o) d = (h, tracks_closed last (cached w) o)
  closed_with-Refreshed last before (some e, w) t h (inr o) d = (h, rw o t)

  reopen-Refreshed :
      (last : Option FileInfo) (w : W)
      → held w ≡ true
      → tracks (some last) (cached w) ≡ true
      → Refreshed (reopen ops last w)
  unfolding reopen
  reopen-Refreshed last w h t =
      closed_with-Refreshed last (cached w) (ops.close w) t (laws.close-held w ∙ h)
        (laws.close-cached w) (laws.close-done w)

  after_stat-Refreshed :
      (last : Option FileInfo) (s : Stat) (w : W)
      → held w ≡ true
      → Tells s (file w)
      → tracks (some last) (cached w) ≡ true
      → Refreshed (after_stat ops last s w)
  unfolding after_stat
  after_stat-Refreshed last (failed e) w h s t = (h, t)
  after_stat-Refreshed last (missing e) w h s t = reopen-Refreshed last w h t
  after_stat-Refreshed none (found info) w h s t = reopen-Refreshed none w h t
  after_stat-Refreshed (some last) (found info) w h s t = elim (Bool-cases (unchanged last info)) [
    | inl e ↦ rw (e, s) (agrees-unchanged (cached w) last info t e, h, t)
    | inr e ↦ rw e (reopen-Refreshed (some last) w h t)
  ]

  pub refresh-Refreshed :
      (last : Option FileInfo) (w : W)
      → held w ≡ true
      → tracks (some last) (cached w) ≡ true
      → Refreshed (refresh ops last w)
  unfolding refresh
  refresh-Refreshed last w h t =
      after_stat-Refreshed last (ops.stat w).0 (ops.stat w).1 (laws.stat-held w ∙ h)
        (laws.stat-tells w) (rw (laws.stat-cached w) t)
