-- ===== src/TextHandler/Fields.antt =====
-- What the attributes of a chain of WithAttrs and WithGroup leave in a line: each under the groups that
-- were open when it was bound.
use gklog.Base.{
  ℕ, List, [], ◌∷◌, ◌++◌, none, Bool, true, not, ◌≡◌, refl, sym, ap, ◌∙◌, if◌then◌else◌, is_empty,
  all, Bool-cases, inl, inr, append_assoc, append-nil,
}
use gklog.Text.{Bytes, codes}
use gklog.Text.Parts.{join}
use gklog.Slog.Steps.{Step, bind, enter}
use gklog.Slog.{Attr, Value, nil, text, scalar, valuer, group, end, member, kept, is_empty_group}
use gklog.TextHandler.{
  nested, write_value, write_members, write_attr, write_attrs, members_of, wrap_groups,
  group_prefix,
}

-- The prefix that a step leaves open.
abbrev pub opened : Bytes → Step → Bytes
opened prefix (bind attrs) = prefix
opened prefix (enter name) = if is_empty name then prefix else nested prefix name

-- The fields that a step writes.
abbrev pub own_fields : Bytes → Step → Bytes
own_fields prefix (bind attrs) = write_attrs prefix attrs
own_fields prefix (enter name) = []

-- The fields of a line: each step's attributes, and at the end those of the record, under the groups
-- that are open there.
unfoldable pub fields : Bytes → List Step → List Attr → Bytes
fields prefix [] attrs = write_attrs prefix attrs
fields prefix (s ∷ steps) attrs = own_fields prefix s ++ fields (opened prefix s) steps attrs

-- The prefix that is open behind all steps.
unfoldable pub open_behind : Bytes → List Step → Bytes
open_behind prefix [] = prefix
open_behind prefix (s ∷ steps) = open_behind (opened prefix s) steps

pub write_attrs-append :
    (prefix : Bytes) (xs ys : List Attr)
    → write_attrs prefix (xs ++ ys) ≡ write_attrs prefix xs ++ write_attrs prefix ys
unfolding write_attrs
write_attrs-append prefix [] ys = refl
write_attrs-append prefix (x ∷ xs) ys =
    ap (λ t. write_attr prefix x ++ t) (write_attrs-append prefix xs ys)
    ∙ sym (append_assoc (write_attr prefix x) _ _)

-- Attributes at the end of a record are written at the end, under all groups.
pub fields-append :
    (prefix : Bytes) (steps : List Step) (xs ys : List Attr)
    → fields prefix steps (xs ++ ys)
      ≡ fields prefix steps xs ++ write_attrs (open_behind prefix steps) ys
unfolding fields open_behind
fields-append prefix [] xs ys = write_attrs-append prefix xs ys
fields-append prefix (s ∷ steps) xs ys =
    ap (λ t. own_fields prefix s ++ t) (fields-append (opened prefix s) steps xs ys)
    ∙ sym (append_assoc (own_fields prefix s) _ _)

write_value-empty_group :
    (prefix key : Bytes) (v : Value)
    → is_empty_group v ≡ true
    → write_value prefix key none 100 v ≡ []
write_value-empty_group prefix key nil h = cc
write_value-empty_group prefix key (text s) h = cc
write_value-empty_group prefix key (scalar shown printed) h = cc
write_value-empty_group prefix key (valuer go_type shown v) h = cc
write_value-empty_group prefix key (group (member k v ms)) h = cc
write_value-empty_group prefix key (group end) h = unfold write_value in refl

write_attr-empty_group :
    (prefix : Bytes) (a : Attr) → is_empty_group a.value ≡ true → write_attr prefix a ≡ []
unfolding write_attr
write_attr-empty_group prefix a h = write_value-empty_group prefix a.key a.value h

-- Leaving empty groups out changes nothing that is written.
write_attrs-kept :
    (prefix : Bytes) (attrs : List Attr)
    → write_attrs prefix (kept attrs) ≡ write_attrs prefix attrs
unfolding write_attrs kept
write_attrs-kept prefix [] = refl
write_attrs-kept prefix (a ∷ attrs) = elim (Bool-cases (is_empty_group a.value)) [
  | inl e ↦ rw (e, write_attr-empty_group prefix a e) (write_attrs-kept prefix attrs)
  | inr e ↦ rw e (ap (λ t. write_attr prefix a ++ t) (write_attrs-kept prefix attrs))
]

write_members-members_of :
    (prefix : Bytes) (attrs : List Attr)
    → write_members prefix (members_of attrs) ≡ write_attrs prefix attrs
unfolding write_members write_attrs write_attr
write_members-members_of prefix [] = refl
write_members-members_of prefix (a ∷ attrs) =
    ap (λ t. write_value prefix a.key none 100 a.value ++ t) (write_members-members_of prefix attrs)

-- A group writes its members under its name.
write_attr-group :
    (prefix name : Bytes) (attrs : List Attr)
    → write_attr prefix (record { key = name; value = group (members_of attrs) })
      ≡ write_attrs (nested prefix name) attrs
unfolding write_attr write_value
write_attr-group prefix name attrs = write_members-members_of (nested prefix name) attrs

-- The prefix of groups under a prefix.
abbrev pub nest : Bytes → List Bytes → Bytes
nest prefix [] = prefix
nest prefix (name ∷ groups) = nest (nested prefix name) groups

write_attrs-one : (prefix : Bytes) (a : Attr) → write_attrs prefix (a ∷ []) ≡ write_attr prefix a
unfolding write_attrs
write_attrs-one prefix a = append-nil (write_attr prefix a)

pub write_attrs-wrap_groups :
    (prefix : Bytes) (groups : List Bytes) (attrs : List Attr)
    → write_attrs prefix (wrap_groups groups attrs) ≡ write_attrs (nest prefix groups) attrs
unfolding wrap_groups
write_attrs-wrap_groups prefix [] attrs = refl
write_attrs-wrap_groups prefix (name ∷ groups) attrs =
    let inner = wrap_groups groups attrs in
    write_attrs-one prefix _
    ∙ write_attr-group prefix name (kept inner)
    ∙ write_attrs-kept (nested prefix name) inner
    ∙ write_attrs-wrap_groups (nested prefix name) groups attrs

pub nest-append :
    (prefix : Bytes) (groups : List Bytes) (name : Bytes)
    → nest prefix (groups ++ name ∷ []) ≡ nested (nest prefix groups) name
nest-append prefix [] name = refl
nest-append prefix (g ∷ groups) name = nest-append (nested prefix g) groups name

-- Every group has a name.
abbrev pub all_named : List Bytes → Bool
all_named groups = all (λ g. not (is_empty g)) groups

-- Under a prefix, the names follow it with dots between them.
nest-join :
    (c : ℕ) (s : Bytes) (groups : List Bytes)
    → nest (c ∷ s) groups ≡ join ((c ∷ s) ∷ groups) (codes ".")
unfolding join
nest-join c s [] = refl
nest-join c s (g ∷ []) = refl
nest-join c s (g ∷ k ∷ groups) =
    nest-join c (s ++ b'.' ∷ g) (k ∷ groups)
    ∙ append_assoc (c ∷ s) (b'.' ∷ g) (b'.' ∷ join (k ∷ groups) (codes "."))

-- The prefix that Handle computes is the one that the nesting of groups makes.
pub group_prefix-nest :
    (groups : List Bytes) → all_named groups ≡ true → group_prefix groups ≡ nest [] groups
unfolding group_prefix
group_prefix-nest [] h = refl
group_prefix-nest ([] ∷ groups) h = cc
group_prefix-nest ((c ∷ s) ∷ groups) h = sym (nest-join c s groups)
