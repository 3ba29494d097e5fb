-- ===== src/LockedWriter.antt =====
-- handlers.go: lockedWriteCloser; locked_rotation.go: lockedRotation. A writer that takes a lock file
-- for each Write, and reopens a rotating log when the file at the path is not as it left it. The mutex
-- makes a call one step of the process; the lock file orders the steps of processes.
pub mod World
pub mod Refreshed
pub mod Fresh
pub mod Turns
use gklog.Base.{
  ◌++◌, not, is_empty, ◌≡◌, refl, ℕ, Option, none, some, Bool, true, false, ◌&&◌, ◌==◌,
  if◌then◌else◌,
}
use gklog.Text.{Bytes, codes, same}
use gklog.Text.Parts.{split, join}
use gklog.Filepath.{clean, dir_of, base_of, join_path}
use gklog.Errors.{Error, locked_write_error}

-- os.FileInfo, as far as it is read; `file_id` is what os.SameFile compares.
pub record FileInfo : Type 0 where
  pub file_id : ℕ
  pub size : ℕ
  pub mod_time : ℕ

-- The result of os.Stat; `missing` are the errors of which os.IsNotExist holds.
pub data Stat : Type 0 where
  found : FileInfo → Stat
  missing : Error → Stat
  failed : Error → Stat

-- The lock file, os.Stat on the path, and the wrapped io.WriteCloser.
pub record FileOps (W : Type 0) : Type 0 where
  pub lock : W → Option Error × W
  pub unlock : W → W
  pub stat : W → Stat × W
  pub write : Bytes → W → (ℕ × Option Error) × W
  pub close : W → Option Error × W

-- `rotation` is `none` if the wrapped writer is no lumberjack logger, and `lastFile` otherwise.
pub record LockedWriter : Type 0 where
  pub rotation : Option (Option FileInfo)

-- What NewLockedWriteCloser makes of a writer that is not nil.
unfoldable pub new_locked_writer : (is_lumberjack : Bool) → LockedWriter
new_locked_writer is_lumberjack = record { rotation = if is_lumberjack then some none else none }

-- NewLockedWriteCloser: `none` if the writer is nil.
abbrev new_locked_write_closer : (is_lumberjack : Option Bool) → Option LockedWriter
new_locked_write_closer none = none
new_locked_write_closer (some is_lumberjack) = some (new_locked_writer is_lumberjack)

-- The lock file beside a log.
unfoldable pub lock_path : Bytes → Bytes
lock_path path =
    if not (is_empty (dir_of path)) && not (same (dir_of path) (codes "."))
    then join_path (dir_of path) (base_of path ++ codes ".lock")
    else path ++ codes ".lock"

lock_path_runs : lock_path (codes "logs/app.log") ≡ codes "logs/app.log.lock"
unfolding lock_path dir_of base_of join_path clean split join
lock_path_runs = refl

-- What refresh compares.
abbrev pub unchanged : FileInfo → FileInfo → Bool
unchanged last info =
    last.file_id == info.file_id && (last.size == info.size && last.mod_time == info.mod_time)

abbrev is_same : Option FileInfo → Stat → Bool
is_same (some last) (found info) = unchanged last info
is_same _ _ = false

abbrev wrapped : {W : Type 0} → Bytes → Option Error × W → Option Error × W
wrapped op (none, w) = (none, w)
wrapped op (some e, w) = (some (locked_write_error op e), w)

-- `lastFile` after the Close of refresh: it is kept if that fails.
abbrev kept_on : Option Error → Option FileInfo → Option FileInfo
kept_on none last = none
kept_on (some e) last = last

-- Where Write stands when it comes to wc.Write: there, with the lock taken, or on its way out.
pub data Prepared (W : Type 0) : Type 0 where
  ready : LockedWriter → W → Prepared W
  stopped : Error → LockedWriter → W → Prepared W

module _ {W : Type 0} (ops : FileOps W) where
  reopen : Option FileInfo → W → (Option Error × Option FileInfo) × W
  reopen last w = let (e, w') = wrapped (codes "reopen") (ops.close w) in ((e, kept_on e last), w')

  after_stat : Option FileInfo → Stat → W → (Option Error × Option FileInfo) × W
  unfolding reopen
  after_stat last (failed e) w =
      ((some (locked_write_error (codes "stat before write") e), last), w)
  after_stat last (found info) w =
      if is_same last (found info) then ((none, last), w) else reopen last w
  after_stat last (missing e) w = reopen last w

  unfoldable pub refresh : Option FileInfo → W → (Option Error × Option FileInfo) × W
  unfolding after_stat
  refresh last w = let (s, w') = ops.stat w in after_stat last s w'

  abbrev remembered : Stat → Option Error × Option FileInfo
  remembered (found info) = (none, some info)
  remembered (missing e) = (some (locked_write_error (codes "stat after write") e), none)
  remembered (failed e) = (some (locked_write_error (codes "stat after write") e), none)

  -- remember, which runs with an empty `lastFile`.
  unfoldable pub remember : W → (Option Error × Option FileInfo) × W
  remember w = let (s, w') = ops.stat w in (remembered s, w')

  -- `if w.rotation != nil { refresh }`
  refresh_if : LockedWriter → W → (Option Error × LockedWriter) × W
  unfolding refresh
  refresh_if lw w = elim lw.rotation [
    | none ↦ ((none, lw), w)
    | some last ↦
        let ((e, last'), w') = refresh last w in ((e, record { rotation = some last' }), w')
  ]

  -- The lines from wc.Write on, whose result decides what is remembered.
  finish : LockedWriter → ℕ × Option Error → W → ((ℕ × Option Error) × LockedWriter) × W
  unfolding remember
  finish lw (n, some e) w = (
    (
      (n, some (locked_write_error (codes "write") e)),
      elim lw.rotation [ none ↦ lw | some last ↦ record { rotation = some none } ],
    ),
    w,
  )
  finish lw (n, none) w = elim lw.rotation [
    | none ↦ (((n, none), lw), w)
    | some last ↦
        let ((e, last'), w') = remember w in (((n, e), record { rotation = some last' }), w')
  ]

  after_refresh : (Option Error × LockedWriter) × W → Prepared W
  after_refresh ((none, lw), w) = ready lw w
  after_refresh ((some e, lw), w) = stopped e lw (ops.unlock w)

  after_lock : LockedWriter → Option Error × W → Prepared W
  unfolding after_refresh refresh_if
  after_lock lw (none, w) = after_refresh (refresh_if lw w)
  after_lock lw (some e, w) = stopped (locked_write_error (codes "lock") e) lw w

  -- The lines of Write above wc.Write.
  unfoldable pub prepare : LockedWriter → W → Prepared W
  unfolding after_lock
  prepare lw w = after_lock lw (ops.lock w)

  write_prepared : Bytes → Prepared W → ((ℕ × Option Error) × LockedWriter) × W
  unfolding finish
  write_prepared p (stopped e lw w) = (((0, some e), lw), w)
  write_prepared p (ready lw w) =
      let (r, w') = ops.write p w in let (out, w'') = finish lw r w' in (out, ops.unlock w'')

  unfoldable pub write : LockedWriter → Bytes → W → ((ℕ × Option Error) × LockedWriter) × W
  unfolding prepare write_prepared
  write lw p w = write_prepared p (prepare lw w)

  -- Close; the wrapped writer of NewLockedWriteCloser is never nil.
  unfoldable pub close : LockedWriter → W → Option Error × W
  close lw w = wrapped (codes "close") (ops.close w)
