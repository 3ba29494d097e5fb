-- ===== src/Tests/Files.antt =====
-- The theorems on the locked writer, rotation and closing sinks, applied.
use gklog.Base.{
  ℕ, List, suc, ◌+◌, [], ◌∷◌, Option, none, some, Bool, true, false, ◌≡◌, inl, refl, arith, length,
}
use gklog.Text.{Bytes, codes}
use gklog.Errors.{Error, foreign}
use gklog.Slog.{string_attr}
use gklog.LockedWriter.{FileInfo, Stat, found, missing, FileOps, LockedWriter, write}
use gklog.LockedWriter.World.{agrees, Tells, IsShared}
use gklog.Rotation.{no_config}
use gklog.Slog.Steps.{Step, bind, enter}
use gklog.Sinks.Files.{Opener, open_locked}

-- A disk with one path, of which nothing fails.
record Disk : Type 0 where
  file : Option FileInfo
  cached : Option FileInfo
  held : Bool

abbrev stat_of : Option FileInfo → Stat
stat_of none = missing (foreign (codes "no such file"))
stat_of (some i) = found i

abbrev grown : ℕ → Option FileInfo → FileInfo
grown n none = record { file_id = 1; size = n; mod_time = 1 }
grown n (some i) = record i { size = i.size + n; mod_time = suc i.mod_time }

abbrev disk : FileOps Disk
disk = record {
  lock = λ d. (none, record d { held = true });
  unlock = λ d. record d { held = false };
  stat = λ d. (stat_of d.file, d);
  write = λ p d. (
    (length p, none),
    record d { file = some (grown (length p) d.file); cached = some (grown (length p) d.file) },
  );
  close = λ d. (none, record d { cached = none });
}

stat_of-Tells : (f : Option FileInfo) → Tells (stat_of f) f
stat_of-Tells none = refl
stat_of-Tells (some i) = refl

agrees_refl : (f : FileInfo) → agrees (some f) (some f) ≡ true
agrees_refl f = ground arith

never : (b : Bool) (e : Error) → ◌≡◌ {A = Option Error} none (some e) → true ≡ b
never b e q = cc

abbrev disk_laws : IsShared disk
disk_laws = record {
  file = λ d. d.file;
  cached = λ d. d.cached;
  held = λ d. d.held;
  lock-cached = λ d. refl;
  lock-taken = λ d e. refl;
  lock-refused = λ d e q. never d.held e q;
  unlock-cached = λ d. refl;
  unlock-held = λ d. refl;
  stat-tells = λ d. stat_of-Tells d.file;
  stat-cached = λ d. refl;
  stat-held = λ d. refl;
  stat-file = λ d h. refl;
  close-cached = λ d. inl refl;
  close-done = λ d e. refl;
  close-held = λ d. refl;
  write-held = λ p d. refl;
  write-done = λ p d h e. agrees_refl (grown (length p) d.file);
}

abbrev empty_disk : Disk
empty_disk = record { file = none; cached = none; held = false }

abbrev line : Bytes
line = codes "a line"

-- After one Write, another process has replaced the file.
abbrev replaced : Disk
replaced = record {
  file = some (record { file_id = 2; size = 40; mod_time = 9 });
  cached = some (record { file_id = 1; size = 6; mod_time = 1 });
  held = false;
}

abbrev written : Disk
written = record {
  file = some (record { file_id = 1; size = 6; mod_time = 1 });
  cached = some (record { file_id = 1; size = 6; mod_time = 1 });
  held = false;
}

abbrev after_one : LockedWriter
after_one = record { rotation = some (some (record { file_id = 1; size = 6; mod_time = 1 })) }

abbrev reopened : Disk
reopened = record replaced { cached = none; held = true }

abbrev disk_opener : Opener Disk
disk_opener lock settings = disk

abbrev log_path : Bytes
log_path = codes "logs/app.log"

abbrev log_steps : List Step
log_steps = enter (codes "rpc") ∷ bind (string_attr (codes "a") (codes "1") ∷ []) ∷ []

abbrev at_noon : ℕ → Bytes
at_noon t = codes "noon"

opened_laws : IsShared (open_locked disk_opener log_path no_config)
unfolding open_locked
opened_laws = disk_laws
