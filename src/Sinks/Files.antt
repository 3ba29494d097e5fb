-- ===== src/Sinks/Files.antt =====
-- handlers.go: StdoutJSON, FileText, FileJSON and EmailHandler. A log with a lock file is a pair: its
-- lockedWriteCloser, and the world. log/slog's JSON handler over a writer is a parameter, and so is
-- what lumberjack and flock make of a path and settings.
pub mod Lines
pub mod Traced
use gklog.Base.{ℕ, Option, none, some, true}
use gklog.Base.Int.{ℤ}
use gklog.Text.{Bytes}
use gklog.Errors.{Error}
use gklog.Slog.{HandlerOps}
use gklog.LockedWriter.{FileOps, LockedWriter, new_locked_writer, lock_path}
use gklog.LockedWriter as Locked
use gklog.Rotation.{RotationConfig, Settings, new_lumberjack_writer_with_config}
use gklog.TextHandler.{TextHandler, new_text_handler}
use gklog.TextHandler as Text
use gklog.EmailLog as Email
use gklog.Sinks.{ClosableHandler}

-- flock.New, and the lumberjack logger with the settings.
abbrev pub Opener : Type 0 → Type 0
Opener W = (lock : Bytes) → Settings → FileOps W

-- NewLockedWriteCloser on the rotating writer of a path.
unfoldable pub open_locked : {W : Type 0} → Opener W → Bytes → RotationConfig → FileOps W
open_locked opener path rot = opener (lock_path path) (new_lumberjack_writer_with_config path rot)

-- A log that was just opened.
abbrev pub opened : {W : Type 0} → W → LockedWriter × W
opened w = (new_locked_writer true, w)

module _ {W : Type 0} (files : FileOps W) where
  -- The log as an io.Writer whose results are dropped, and as an io.Closer.
  unfoldable pub write_line : Bytes → LockedWriter × W → LockedWriter × W
  write_line line (lw, w) = let ((r, lw'), w') = Locked.write files lw line w in (lw', w')

  unfoldable pub close_log : LockedWriter × W → Option Error × (LockedWriter × W)
  close_log (lw, w) = let (e, w') = Locked.close files lw w in (e, (lw, w'))

-- TextHandler as a handler of log/slog.
unfoldable pub text_ops :
    {W : Type 0} → (ℕ → Bytes) → FileOps W → HandlerOps TextHandler (LockedWriter × W)
unfolding write_line
text_ops stamp files = record {
  enabled = Text.enabled;
  handle = λ h ctx r st. Text.handle stamp (write_line files) h ctx r st;
  with_attrs = Text.with_attrs;
  with_group = Text.with_group;
}

unfoldable pub file_text :
    {W : Type 0}
    → Opener W
    → (path label : Bytes) → RotationConfig
    → ClosableHandler TextHandler (LockedWriter × W)
unfolding close_log open_locked
file_text opener path label rot = record {
  handler = new_text_handler label;
  closer = some (close_log (open_locked opener path rot));
}

-- `new_json` is slog.NewJSONHandler with a level.
unfoldable pub file_json :
    {J W : Type 0}
    → (new_json : ℤ → J) → Opener W
    → (path : Bytes) → ℤ
    → RotationConfig
    → ClosableHandler J (LockedWriter × W)
unfolding close_log open_locked
file_json new_json opener path level rot = record {
  handler = new_json level;
  closer = some (close_log (open_locked opener path rot));
}

unfoldable pub stdout_json : {J : Type 0} → (new_json : ℤ → J) → ℤ → J
stdout_json new_json level = new_json level

unfoldable pub email_handler : ℤ → ℤ → Bytes → Bytes → Email.Handler
email_handler threshold cooldown to subject_prefix =
    Email.new_handler threshold cooldown to subject_prefix
