-- ===== src/Version.antt =====
-- version/version.go: String and BuildHash; version/guard_stamped.go: the check on build metadata.
-- The variables that the linker stamps are the fields of a record, and the executable file is a
-- parameter.
pub mod Laws
pub mod Hash
use gklog.Base.{
  ℕ, Option, none, some, ℕ, List, [], ◌∷◌, ◌++◌, Bool, true, false, not, ◌&&◌, ◌||◌, ◌==◌, ltb,
  length, take, if◌then◌else◌, is_empty,
}
use gklog.Text.{Bytes, codes, same}
use gklog.Text.Hex.{encode_hex}
use gklog.Text.Trim.{trim_space}
use gklog.Text.Case.{lower_byte}

pub record Stamp : Type 0 where
  pub version : Bytes
  pub commit : Bytes
  pub dirty : Bytes
  pub bin_hash : Bytes
  pub build_time : Bytes

-- Every variable is "unknown" when nothing is stamped.
unfoldable pub unstamped : Stamp
unstamped = record {
  version = codes "unknown";
  commit = codes "unknown";
  dirty = codes "unknown";
  bin_hash = codes "unknown";
  build_time = codes "unknown";
}

unfoldable pub short_commit : Bytes → Bytes
short_commit commit =
    if not (same commit (codes "unknown")) && ltb 12 (length commit) then take 12 commit else commit

unfoldable pub version_string : Stamp → Bytes
unfolding short_commit
version_string s =
    let commit = short_commit s.commit in
    let named =
      if not (same s.version (codes "unknown")) && not (is_empty s.version)
      then s.version ++ (codes " " ++ commit)
      else commit in
    let marked = if same s.dirty (codes "true") then named ++ codes "+dirty" else named in
    if not (same s.build_time (codes "unknown"))
    then marked ++ (codes " built " ++ s.build_time)
    else marked

-- strings.EqualFold with a text in lower-case ASCII: a letter matches in both cases, and so do the
-- long s U+017F and the Kelvin sign U+212A, which fold to s and k.
unfoldable pub equal_fold : Bytes → Bytes → Bool
equal_fold [] [] = true
equal_fold [] (_ ∷ _) = false
equal_fold (_ ∷ _) [] = false
equal_fold (a ∷ []) (d ∷ t) = lower_byte a == d && is_empty t
equal_fold (a ∷ b ∷ []) (d ∷ t) =
    if a == 0xC5 && (b == 0xBF && d == b's')
    then is_empty t
    else (lower_byte a == d && equal_fold (b ∷ []) t)
equal_fold (a ∷ b ∷ c ∷ s) (d ∷ t) =
    let long_s = equal_fold (c ∷ s) t in
    let kelvin = equal_fold s t in
    let plain = equal_fold (b ∷ c ∷ s) t in
    if a == 0xC5 && (b == 0xBF && d == b's')
    then long_s
    else if a == 0xE2 && (b == 0x84 && (c == 0xAA && d == b'k'))
    then kelvin
    else (lower_byte a == d && plain)

unfoldable pub missing_build_metadata_value : Bytes → Bool
missing_build_metadata_value value =
    if is_empty (trim_space value) then true else equal_fold (trim_space value) (codes "unknown")

unfoldable pub build_metadata_valid : Stamp → Bool
build_metadata_valid s =
    if missing_build_metadata_value s.commit
    then false
    else if missing_build_metadata_value s.build_time
    then false
    else if not (same s.dirty (codes "true")) && not (same s.dirty (codes "false"))
    then false
    else true

abbrev invalid_build_metadata_message : Bytes
invalid_build_metadata_message = codes "required gklog ENV vars are empty or invalid"

-- The value that init panics with, if it does.
unfoldable pub init : Stamp → Option Bytes
unfolding build_metadata_valid
init s = if build_metadata_valid s then none else some invalid_build_metadata_message

-- What computeBuildHash reads: os.Executable, os.Open, io.Copy into a SHA-256 with its sum, and the
-- Close of the file.
pub record Binary (W : Type 0) : Type 0 where
  pub executable : W → Option Bytes × W
  pub open_file : Bytes → W → Option ℕ × W
  pub sum_of : ℕ → W → Option Bytes × W
  pub close_file : ℕ → W → W

abbrev hash_text : Option Bytes → Bytes
hash_text none = codes "unknown"
hash_text (some sum) = take 12 (encode_hex sum)

module _ {W : Type 0} (binary : Binary W) where
  hash_opened : Option ℕ × W → Bytes × W
  hash_opened (none, w) = (codes "unknown", w)
  hash_opened (some f, w) =
      let (sum, w') = binary.sum_of f w in (hash_text sum, binary.close_file f w')

  hash_executable : Option Bytes × W → Bytes × W
  unfolding hash_opened
  hash_executable (none, w) = (codes "unknown", w)
  hash_executable (some exe, w) = hash_opened (binary.open_file exe w)

  unfoldable pub compute_build_hash : W → Bytes × W
  unfolding hash_executable
  compute_build_hash w = hash_executable (binary.executable w)

  -- buildHashOnce and buildHashValue: `none` before the first call.
  unfoldable pub build_hash : Option Bytes → W → (Bytes × Option Bytes) × W
  unfolding compute_build_hash
  build_hash none w = let (hash, w') = compute_build_hash w in ((hash, some hash), w')
  build_hash (some hash) w = ((hash, some hash), w)
