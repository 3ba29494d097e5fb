-- ===== src/Slog.antt =====
-- What the program uses of log/slog: values, attributes, records, levels, and the Handler interface.
-- A value that is no string, group or LogValuer is given by its two renderings: `shown` is the
-- result of Value.String and `printed` that of the verb %v on Value.Any. A LogValuer is given by its
-- Go type, the result of Value.String on it, and the value that its method LogValue returns.
pub mod Loggers
pub mod Steps
use gklog.Base.{
  ℕ, zero, suc, ◌+◌, ◌/◌, ◌%◌, ltb, List, [], ◌∷◌, ◌++◌, Option, Bool, true, false, map,
  if◌then◌else◌,
}
use gklog.Base.Int.{ℤ, pos, negsuc, ltb_ℤ, ◌-ℤ◌}
use gklog.Text.{Bytes, codes}
use gklog.Text.Parts.{join}
use gklog.Text.Decimal.{decimal}
use gklog.Errors.{Error}
use gklog.Ctx.{Ctx}

mutual
  pub data Value : Type 0 where
    nil : Value
    text : Bytes → Value
    scalar : (shown printed : Bytes) → Value
    group : Members → Value
    valuer : (go_type shown : Bytes) → Value → Value

  pub data Members : Type 0 where
    end : Members
    member : Bytes → Value → Members → Members

pub record Attr : Type 0 where
  pub key : Bytes
  pub value : Value

abbrev pub members : Members → List Attr
members end = []
members (member k v ms) = record { key = k; value = v } ∷ members ms

abbrev pub string_attr : Bytes → Bytes → Attr
string_attr key value = record { key = key; value = text value }

abbrev pub keys : List Attr → List Bytes
keys attrs = map (λ a. a.key) attrs

abbrev too_many : Bytes → Value
too_many go_type =
    let note = codes "LogValue called too many times on " ++ go_type in scalar note note

-- Value.Resolve: LogValue is called up to 100 times.
resolve_steps : ℕ → Bytes → Value → Value
resolve_steps zero go_type v = too_many go_type
resolve_steps (suc n) go_type (valuer t s v) = resolve_steps n go_type v
resolve_steps (suc n) go_type v = v

unfoldable pub resolve : Value → Value
unfolding resolve_steps
resolve (valuer t s v) = resolve_steps 99 t v
resolve v = v

-- slog.Level
abbrev pub level_debug : ℤ
level_debug = negsuc 3

abbrev pub level_info : ℤ
level_info = pos 0

abbrev pub level_warn : ℤ
level_warn = pos 4

abbrev pub level_error : ℤ
level_error = pos 8

pub record Record : Type 0 where
  pub time : ℕ
  pub level : ℤ
  pub message : Bytes
  pub pc : ℕ
  pub attrs : List Attr

abbrev pub new_record : ℕ → ℤ → Bytes → ℕ → Record
new_record time level message pc = record {
  time = time;
  level = level;
  message = message;
  pc = pc;
  attrs = [];
}

-- Value.isEmptyGroup
abbrev pub is_empty_group : Value → Bool
is_empty_group (group end) = true
is_empty_group _ = false

-- The attributes that Record.AddAttrs keeps: an empty group is dropped.
unfoldable pub kept : List Attr → List Attr
kept [] = []
kept (a ∷ attrs) = let rest = kept attrs in if is_empty_group a.value then rest else a ∷ rest

-- Record.AddAttrs
unfoldable pub add_attrs : Record → List Attr → Record
add_attrs r attrs = record r { attrs = r.attrs ++ kept attrs }

-- slog.Handler, and the Close of a handler that is an io.Closer. `W` is the state of the world
-- that the handlers write to.
pub record HandlerOps (H W : Type 0) : Type 0 where
  pub enabled : H → Ctx → ℤ → Bool
  pub handle : H → Ctx → Record → W → Option Error × W
  pub with_attrs : H → List Attr → H
  pub with_group : H → Bytes → H

-- The type assertion to io.Closer: `none` if the handler is none.
pub record CloserOps (H W : Type 0) : Type 0 where
  pub close : H → Option (W → Option Error × W)

-- `%+d` of the distance to a named level; nothing at the level itself.
signed : ℤ → Bytes
signed (pos zero) = []
signed (pos (suc n)) = codes "+" ++ decimal (suc n)
signed (negsuc n) = codes "-" ++ decimal (suc n)

-- Level.String
unfoldable pub level_string : ℤ → Bytes
unfolding signed decimal ◌-ℤ◌
level_string l =
    if ltb_ℤ l level_info
    then codes "DEBUG" ++ signed (l -ℤ level_debug)
    else if ltb_ℤ l level_warn
    then codes "INFO" ++ signed (l -ℤ level_info)
    else if ltb_ℤ l level_error
    then codes "WARN" ++ signed (l -ℤ level_warn)
    else codes "ERROR" ++ signed (l -ℤ level_error)

-- Value.String, and Attr.String for the members of a group.
unfoldable mutual
  pub value_string : Value → Bytes
  value_string nil = codes "<nil>"
  value_string (text s) = s
  value_string (scalar shown printed) = shown
  value_string (group ms) = codes "[" ++ (join (member_strings ms) (codes " ") ++ codes "]")
  value_string (valuer go_type shown v) = shown

  pub member_strings : Members → List Bytes
  member_strings end = []
  member_strings (member k v ms) = (k ++ (codes "=" ++ value_string v)) ∷ member_strings ms
