-- ===== src/TextHandler.antt =====
-- handlers.go: TextHandler, which writes a record as a line of text. The mutex that the clones of a
-- handler share makes the write of a line one step.
pub mod Fields
pub mod Laws
use gklog.Base.{
  ℕ, zero, suc, List, [], ◌∷◌, ◌++◌, Option, none, some, Bool, true, false, if◌then◌else◌, is_empty,
}
use gklog.Base.Int.{ℤ}
use gklog.Text.{Bytes, codes}
use gklog.Text.Parts.{join}
use gklog.Errors.{Error}
use gklog.Slog.{
  Attr, Value, Members, nil, text, scalar, group, valuer, end, member, Record, kept, level_string,
}
use gklog.Ctx.{Ctx}

pub record TextHandler : Type 0 where
  pub label : Bytes
  pub attrs : List Attr
  pub groups : List Bytes

unfoldable pub new_text_handler : Bytes → TextHandler
new_text_handler label = record { label = label; attrs = []; groups = [] }

unfoldable pub enabled : TextHandler → Ctx → ℤ → Bool
enabled h ctx level = true

-- The key under a prefix, if there is one.
abbrev pub nested : Bytes → Bytes → Bytes
nested prefix key = if is_empty prefix then key else prefix ++ (codes "." ++ key)

-- The end of textWriteAttr.
abbrev pub field : Bytes → Bytes → Bytes → Bytes
field prefix key shown = codes " " ++ (nested prefix key ++ (codes "=" ++ shown))

-- The type that is named when LogValue is called too often is that of the first LogValuer.
abbrev first_type : Option Bytes → Bytes → Bytes
first_type none go_type = go_type
first_type (some first) go_type = first

abbrev named : Option Bytes → Bytes
named none = []
named (some first) = first

-- textWriteAttr on a key and a value, with what it appends as the result. Value.Resolve is a part of
-- it, so that the recursion is on the value: `calls` is how many calls of LogValue are left.
unfoldable mutual
  pub write_value : (prefix key : Bytes) → Option Bytes → (calls : ℕ) → Value → Bytes
  write_value prefix key orig zero v =
      field prefix key (codes "LogValue called too many times on " ++ named orig)
  write_value prefix key orig (suc calls) (valuer go_type shown v) =
      write_value prefix key (some (first_type orig go_type)) calls v
  write_value prefix key orig (suc calls) nil =
      if is_empty key then [] else field prefix key (codes "<nil>")
  write_value prefix key orig (suc calls) (text s) = field prefix key s
  write_value prefix key orig (suc calls) (scalar shown printed) = field prefix key printed
  write_value prefix key orig (suc calls) (group ms) = write_members (nested prefix key) ms

  -- textWriteAttrs on the members of a group
  pub write_members : (prefix : Bytes) → Members → Bytes
  write_members prefix end = []
  write_members prefix (member key v ms) =
      write_value prefix key none 100 v ++ write_members prefix ms

unfoldable pub write_attr : Bytes → Attr → Bytes
unfolding write_value
write_attr prefix a = write_value prefix a.key none 100 a.value

unfoldable pub write_attrs : Bytes → List Attr → Bytes
write_attrs prefix [] = []
write_attrs prefix (a ∷ attrs) = write_attr prefix a ++ write_attrs prefix attrs

abbrev pub members_of : List Attr → Members
members_of [] = end
members_of (a ∷ attrs) = member a.key a.value (members_of attrs)

-- slog.GroupValue, which leaves empty groups out.
abbrev pub group_value : List Attr → Value
group_value attrs = group (members_of (kept attrs))

-- The last group is the innermost one.
unfoldable pub wrap_groups : List Bytes → List Attr → List Attr
wrap_groups [] attrs = attrs
wrap_groups (name ∷ groups) attrs =
    record { key = name; value = group_value (wrap_groups groups attrs) } ∷ []

unfoldable pub group_prefix : List Bytes → Bytes
group_prefix groups = if is_empty groups then [] else join groups (codes ".")

unfoldable pub with_attrs : TextHandler → List Attr → TextHandler
with_attrs h attrs =
    if is_empty attrs then h else record h { attrs = h.attrs ++ wrap_groups h.groups attrs }

unfoldable pub with_group : TextHandler → Bytes → TextHandler
with_group h name = if is_empty name then h else record h { groups = h.groups ++ name ∷ [] }

-- `stamp` is Time.Format with the layout of a line, which depends on the time's zone.
unfoldable pub line_of : (ℕ → Bytes) → TextHandler → Record → Bytes
unfolding write_attrs group_prefix
line_of stamp h r =
    stamp r.time
    ++ (codes " "
        ++ ((if is_empty h.label then [] else h.label ++ codes " ")
            ++ (level_string r.level
                ++ (codes " "
                    ++ (r.message
                        ++ (write_attrs [] h.attrs
                            ++ (write_attrs (group_prefix h.groups) r.attrs ++ 10 ∷ [])))))))

-- The result of the write is thrown away.
unfoldable pub handle :
    {W : Type 0} → (ℕ → Bytes) → (Bytes → W → W) → TextHandler → Ctx → Record → W → Option Error × W
unfolding line_of
handle stamp write h ctx r w = (none, write (line_of stamp h r) w)
