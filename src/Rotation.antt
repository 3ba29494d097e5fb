-- ===== src/Rotation.antt =====
-- handlers.go: RotationConfig, and the settings that NewLumberjackWriterWithConfig makes of it. A
-- pointer to a bool is an Option. A lumberjack.Logger stands for its settings.
use gklog.Base.{Option, none, some, Bool, true, ◌≡◌, ap, if◌then◌else◌, arith}
use gklog.Base.Int.{ℤ, pos, negsuc, leb_ℤ, ltb_ℤ}
use gklog.Text.{Bytes}

pub record RotationConfig : Type 0 where
  pub max_size_mb : ℤ
  pub max_backups : ℤ
  pub max_age_days : ℤ
  pub compress : Option Bool
  pub local_time : Option Bool

-- The fields of lumberjack.Logger.
pub record Settings : Type 0 where
  pub filename : Bytes
  pub max_size : ℤ
  pub max_backups : ℤ
  pub max_age : ℤ
  pub compress : Bool
  pub local_time : Bool

abbrev or_true : Option Bool → Bool
or_true none = true
or_true (some b) = b

unfoldable pub new_lumberjack_writer_with_config : Bytes → RotationConfig → Settings
new_lumberjack_writer_with_config path rc = record {
  filename = path;
  max_size = if leb_ℤ rc.max_size_mb (pos 0) then pos 5 else rc.max_size_mb;
  max_backups = rc.max_backups;
  max_age = rc.max_age_days;
  compress = or_true rc.compress;
  local_time = or_true rc.local_time;
}

abbrev pub no_config : RotationConfig
no_config = record {
  max_size_mb = pos 0;
  max_backups = pos 0;
  max_age_days = pos 0;
  compress = none;
  local_time = none;
}

unfoldable pub new_lumberjack_writer : Bytes → Settings
unfolding new_lumberjack_writer_with_config
new_lumberjack_writer path = new_lumberjack_writer_with_config path no_config

-- The configuration that asks for the settings of a logger.
abbrev pub config_of : Settings → RotationConfig
config_of s = record {
  max_size_mb = s.max_size;
  max_backups = s.max_backups;
  max_age_days = s.max_age;
  compress = some s.compress;
  local_time = some s.local_time;
}

abbrev or_five : ℤ → ℤ
or_five m = if leb_ℤ m (pos 0) then pos 5 else m

or_five-positive : (m : ℤ) → ltb_ℤ (pos 0) (or_five m) ≡ true
or_five-positive (pos n) = ground arith
or_five-positive (negsuc n) = ground arith

or_five_idem : (m : ℤ) → or_five (or_five m) ≡ or_five m
or_five_idem (pos n) = ground arith
or_five_idem (negsuc n) = ground arith

-- The size limit is always positive, whatever the configuration says; and the settings are fixed:
-- asking for the settings that a configuration leads to leads to the same settings.
max_size-bound :
    (path : Bytes) (rc : RotationConfig)
    → (ltb_ℤ (pos 0) (new_lumberjack_writer_with_config path rc).max_size ≡ true)
      × (new_lumberjack_writer_with_config path
            (config_of (new_lumberjack_writer_with_config path rc))
          ≡ new_lumberjack_writer_with_config path rc)
unfolding new_lumberjack_writer_with_config
max_size-bound path rc =
    let settings : ℤ → Settings = λ m. record {
      filename = path;
      max_size = m;
      max_backups = rc.max_backups;
      max_age = rc.max_age_days;
      compress = or_true rc.compress;
      local_time = or_true rc.local_time;
    } in
    (or_five-positive rc.max_size_mb, ap settings (or_five_idem rc.max_size_mb))
