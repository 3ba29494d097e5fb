-- ===== src/LockedWriter/World.antt =====
-- What the lock file, the file system and the lumberjack logger promise, and the states that a
-- writer of one process can come to, whatever the other processes do.
use gklog.Base.{Option, none, some, Bool, true, false, ◌&&◌, ◌==◌, ◌≡◌, ◌⊎◌}
use gklog.Text.{Bytes}
use gklog.Errors.{Error}
use gklog.LockedWriter.{
  FileInfo, Stat, found, missing, failed, FileOps, LockedWriter, new_locked_writer, write, close,
}

-- An open descriptor is good if the file at the path is the one it was opened on, with the size that
-- the logger counts with; no descriptor is good, since the next Write opens the path.
abbrev pub agrees : Option FileInfo → Option FileInfo → Bool
agrees none file = true
agrees (some c) none = false
agrees (some c) (some f) = c.file_id == f.file_id && c.size == f.size

-- What os.Stat says of the file at the path.
abbrev pub Tells : Stat → Option FileInfo → Type 0
Tells (found i) file = file ≡ some i
Tells (missing e) file = file ≡ none
Tells (failed e) file = Unit

-- `file` is the file at the path, `cached` the descriptor of this process's logger with the size it
-- counts with, `held` whether this process holds the lock. Other processes change the file only under
-- the lock. Close drops the descriptor, also if it reports an error after all; Write, if it succeeds,
-- has counted what it wrote.
pub record IsShared {W : Type 0} (ops : FileOps W) : Type 0 where
  pub file : W → Option FileInfo
  pub cached : W → Option FileInfo
  pub held : W → Bool
  pub lock-cached : (w : W) → cached (ops.lock w).1 ≡ cached w
  pub lock-taken : (w : W) → (ops.lock w).0 ≡ none → held (ops.lock w).1 ≡ true
  pub lock-refused : (w : W) (e : Error) → (ops.lock w).0 ≡ some e → held (ops.lock w).1 ≡ held w
  pub unlock-cached : (w : W) → cached (ops.unlock w) ≡ cached w
  pub unlock-held : (w : W) → held (ops.unlock w) ≡ false
  pub stat-tells : (w : W) → Tells (ops.stat w).0 (file (ops.stat w).1)
  pub stat-cached : (w : W) → cached (ops.stat w).1 ≡ cached w
  pub stat-held : (w : W) → held (ops.stat w).1 ≡ held w
  pub stat-file : (w : W) → held w ≡ true → file (ops.stat w).1 ≡ file w
  pub close-cached : (w : W) → (cached (ops.close w).1 ≡ none) ⊎ (cached (ops.close w).1 ≡ cached w)
  pub close-done : (w : W) → (ops.close w).0 ≡ none → cached (ops.close w).1 ≡ none
  pub close-held : (w : W) → held (ops.close w).1 ≡ held w
  pub write-held : (p : Bytes) (w : W) → held (ops.write p w).1 ≡ held w
  pub write-done :
      (p : Bytes) (w : W)
      → held w ≡ true
      → (ops.write p w).0.1 ≡ none
      → agrees (cached (ops.write p w).1) (file (ops.write p w).1) ≡ true

-- The writer of a process and the world, after any calls of the process and anything that the other
-- processes do in between.
pub data Reach {W : Type 0} (ops : FileOps W) (laws : IsShared ops)
    : LockedWriter → W → Type 0 where
  start :
      (w : W)
      → laws.cached w ≡ none
      → laws.held w ≡ false
      → Reach ops laws (new_locked_writer true) w
  writes :
      (lw : LockedWriter) (w : W) (p : Bytes)
      → Reach ops laws lw w
      → Reach ops laws (write ops lw p w).0.1 (write ops lw p w).1
  closes : (lw : LockedWriter) (w : W) → Reach ops laws lw w → Reach ops laws lw (close ops lw w).1
  others :
      (lw : LockedWriter) (w w' : W)
      → Reach ops laws lw w
      → laws.cached w' ≡ laws.cached w
      → laws.held w' ≡ laws.held w
      → Reach ops laws lw w'
