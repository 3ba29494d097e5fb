-- ===== src/LockedWriter/Fresh.antt =====
-- A writer never appends through a descriptor that another process has made stale, and gives the lock
-- back on every path.
use gklog.Base.{ℕ, Option, none, some, Bool, true, false, ◌≡◌, ◌⊎◌, inl, inr, refl, ◌∙◌}
use gklog.Text.{Bytes, codes}
use gklog.Errors.{Error}
use gklog.LockedWriter.{
  FileInfo, Stat, found, missing, failed, FileOps, LockedWriter, new_locked_writer, wrapped,
  refresh, remembered, remember, refresh_if, finish, Prepared, ready, stopped, after_refresh,
  after_lock, prepare, write_prepared, write, close,
}
use gklog.LockedWriter.World.{agrees, Tells, IsShared, Reach, start, writes, closes, others}
use gklog.LockedWriter.Refreshed.{tracks, tracks_closed, Refreshed, refresh-Refreshed}

module _ {W : Type 0} (ops : FileOps W) (laws : IsShared ops) where
  abbrev file : W → Option FileInfo
  file w = laws.file w

  abbrev cached : W → Option FileInfo
  cached w = laws.cached w

  abbrev held : W → Bool
  held w = laws.held w

  start_tracks : (c : Option FileInfo) → tracks (new_locked_writer true).rotation c ≡ true
  unfolding new_locked_writer
  start_tracks c = refl

  -- Where Write goes on, it holds the lock and a good descriptor; where it stops, it has given the
  -- lock back.
  abbrev Prepares : Prepared W → Type 0
  Prepares (ready lw w) =
      (agrees (cached w) (file w) ≡ true) × (held w ≡ true) × (tracks lw.rotation (cached w) ≡ true)
  Prepares (stopped e lw w) = (held w ≡ false) × (tracks lw.rotation (cached w) ≡ true)

  abbrev as_writer : (Option Error × Option FileInfo) × W → (Option Error × LockedWriter) × W
  as_writer ((e, last), w) = ((e, record { rotation = some last }), w)

  after_refresh-Prepares :
      (x : (Option Error × Option FileInfo) × W)
      → Refreshed ops laws x
      → Prepares (after_refresh ops (as_writer x))
  unfolding after_refresh
  after_refresh-Prepares ((none, last), w) r = r
  after_refresh-Prepares ((some e, last), w) (h, t) =
      (laws.unlock-held w, rw (laws.unlock-cached w) t)

  after_lock-Prepares :
      (last : Option FileInfo) (x : Option Error × W)
      → (x.0 ≡ none → held x.1 ≡ true)
      → ((e : Error) → x.0 ≡ some e → held x.1 ≡ false)
      → tracks (some last) (cached x.1) ≡ true
      → Prepares (after_lock ops (record { rotation = some last }) x)
  unfolding after_lock refresh_if
  after_lock-Prepares last (none, w) h n t =
      after_refresh-Prepares (refresh ops last w) (refresh-Refreshed ops laws last w (h refl) t)
  after_lock-Prepares last (some e, w) h n t = (n e refl, t)

  -- Between two calls: the lock is free, and the descriptor is as the writer tracks it.
  record IsIdle (lw : LockedWriter) (w : W) : Type 0 where
    free : held w ≡ false
    tracked : tracks lw.rotation (cached w) ≡ true

  prepare-Prepares : (lw : LockedWriter) (w : W) → IsIdle lw w → Prepares (prepare ops lw w)
  unfolding prepare
  prepare-Prepares lw w i = prepare_from lw.rotation i.tracked
    where
      prepare_from :
          (r : Option (Option FileInfo))
          → tracks r (cached w) ≡ true
          → Prepares (after_lock ops (record { rotation = r }) (ops.lock w))
      prepare_from none t = cc
      prepare_from (some last) t =
          after_lock-Prepares last (ops.lock w) (laws.lock-taken w)
            (λ e q. laws.lock-refused w e q ∙ i.free) (rw (laws.lock-cached w) t)

  -- remember keeps the size and identity that the descriptor has, or nothing.
  remembered-tracks :
      (s : Stat) (w : W)
      → Tells s (file w)
      → agrees (cached w) (file w) ≡ true
      → tracks (some (remembered ops s).1) (cached w) ≡ true
  remembered-tracks (found info) w t a = rw (← t) a
  remembered-tracks (missing e) w t a = refl
  remembered-tracks (failed e) w t a = refl

  finish-tracks :
      (last : Option FileInfo) (n : ℕ) (e : Option Error) (w : W)
      → held w ≡ true
      → (e ≡ none → agrees (cached w) (file w) ≡ true)
      → tracks
          (finish ops (record { rotation = some last }) (n, e) w).0.1.rotation
          (cached (finish ops (record { rotation = some last }) (n, e) w).1)
        ≡ true
  unfolding finish remember
  finish-tracks last n (some e) w h a = refl
  finish-tracks last n none w h a =
      remembered-tracks (ops.stat w).0 (ops.stat w).1 (laws.stat-tells w)
        (rw (laws.stat-cached w, laws.stat-file w h) (a refl))

  write_prepared-IsIdle :
      (p : Bytes) (x : Prepared W)
      → Prepares x
      → IsIdle (write_prepared ops p x).0.1 (write_prepared ops p x).1
  unfolding write_prepared
  write_prepared-IsIdle p (stopped e lw w) (h, t) = record { free = h; tracked = t }
  write_prepared-IsIdle p (ready lw w) (a, h, t) = finish_from lw.rotation t
    where
      finish_from :
          (r : Option (Option FileInfo))
          → tracks r (cached w) ≡ true
          → IsIdle
              (write_prepared ops p (ready (record { rotation = r }) w)).0.1
              (write_prepared ops p (ready (record { rotation = r }) w)).1
      finish_from none t = cc
      finish_from (some last) t = record {
        free = laws.unlock-held _;
        tracked = rw (laws.unlock-cached) (
            finish-tracks last (ops.write p w).0.0 (ops.write p w).0.1 (ops.write p w).1
              (laws.write-held p w ∙ h) (laws.write-done p w h));
      }

  write-IsIdle :
      (lw : LockedWriter) (w : W) (p : Bytes)
      → IsIdle lw w
      → IsIdle (write ops lw p w).0.1 (write ops lw p w).1
  unfolding write
  write-IsIdle lw w p i = write_prepared-IsIdle p (prepare ops lw w) (prepare-Prepares lw w i)

  tracks_after_close :
      (r : Option (Option FileInfo)) (before after : Option FileInfo)
      → (after ≡ none) ⊎ (after ≡ before)
      → tracks r before ≡ true
      → tracks r after ≡ true
  tracks_after_close none before after o t = cc
  tracks_after_close (some last) before after (inl e) t = tracks_closed last after e
  tracks_after_close (some last) before after (inr e) t = rw e t

  wrapped-world : (op : Bytes) (c : Option Error × W) → (wrapped op c).1 ≡ c.1
  wrapped-world op (none, w) = refl
  wrapped-world op (some e, w) = refl

  close-IsIdle : (lw : LockedWriter) (w : W) → IsIdle lw w → IsIdle lw (close ops lw w).1
  unfolding close
  close-IsIdle lw w i = rw (wrapped-world (codes "close") (ops.close w)) (record {
    free = laws.close-held w ∙ i.free;
    tracked = tracks_after_close lw.rotation (cached w) _ (laws.close-cached w) i.tracked;
  })

  Reach-IsIdle : {lw : LockedWriter} {w : W} → Reach ops laws lw w → IsIdle lw w
  Reach-IsIdle (start w c h) = record { free = h; tracked = start_tracks (cached w) }
  Reach-IsIdle (writes lw w p r) = write-IsIdle lw w p (Reach-IsIdle r)
  Reach-IsIdle (closes lw w r) = close-IsIdle lw w (Reach-IsIdle r)
  Reach-IsIdle (others lw w w' r c h) =
      let i = Reach-IsIdle r in record { free = h ∙ i.free; tracked = rw c i.tracked }

  -- Whatever happened before, Write gives the lock back, also when it fails, and so the next Write of
  -- any process can take it.
  pub write-releases :
      (lw : LockedWriter) (w : W) (p : Bytes)
      → Reach ops laws lw w
      → laws.held (write ops lw p w).1 ≡ false
  write-releases lw w p r = (write-IsIdle lw w p (Reach-IsIdle r)).free
