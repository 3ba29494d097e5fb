-- ===== src/Router.antt =====
-- router.go: Router, which writes every record to a combined handler and to one for its concern. The
-- map of concern handlers is shared by all clones, so it is a part of the state beside the world, and
-- the mutex makes its use one step. FileJSON makes a new handler, so opening one changes the world.
pub mod Keep
pub mod Derive
pub mod Correlated
use gklog.Base.{
  ℕ, zero, suc, List, [], ◌∷◌, ◌++◌, Option, none, some, Bool, true, false, not, ◌==◌,
  if◌then◌else◌, is_empty, take,
}
use gklog.Base.Int.{ℤ, leb_ℤ}
use gklog.Text.{Bytes, codes, same}
use gklog.Text.Trim.{trim_space}
use gklog.Filepath.{join_path, dir_of}
use gklog.Errors.{Error}
use gklog.Slog.{Attr, Record, HandlerOps, resolve, value_string}
use gklog.Ctx.{Ctx}
use gklog.Rotation.{RotationConfig}

pub record RouterOptions : Type 0 where
  pub fallback_concern : Bytes
  pub rotation : RotationConfig
  pub concern_attr : Bytes
  pub path_for_concern : Option (Bytes → Bytes)
  pub level_for_concern : Option (Bytes → ℤ)

-- Router without the map of handlers; a nil combined handler is `none`.
pub record Router (H : Type 0) : Type 0 where
  pub dir : Bytes
  pub level : ℤ
  pub rotation : RotationConfig
  pub fallback_concern : Bytes
  pub combined : Option H
  pub concern_attr : Bytes
  pub path_for_concern : Bytes → Bytes
  pub level_for_concern : Bytes → ℤ
  pub attrs : List Attr
  pub groups : List Bytes

abbrev or_jsonl : Option (Bytes → Bytes) → Bytes → Bytes
or_jsonl none concern = concern ++ codes ".jsonl"
or_jsonl (some f) concern = f concern

abbrev or_level : ℤ → Option (Bytes → ℤ) → Bytes → ℤ
or_level level none concern = level
or_level level (some f) concern = f concern

unfoldable pub new_router : {H : Type 0} → Bytes → ℤ → Option H → RouterOptions → Router H
new_router dir level combined opts = record {
  dir = dir;
  level = level;
  rotation = opts.rotation;
  fallback_concern =
      if is_empty opts.fallback_concern then codes "default" else opts.fallback_concern;
  combined = combined;
  concern_attr = trim_space opts.concern_attr;
  path_for_concern = or_jsonl opts.path_for_concern;
  level_for_concern = or_level level opts.level_for_concern;
  attrs = [];
  groups = [];
}

-- The value of the first attribute with the key.
pub first_value : Bytes → List Attr → Option Bytes
first_value key [] = none
first_value key (a ∷ attrs) =
    let rest = first_value key attrs in
    if same a.key key then some (value_string (resolve a.value)) else rest

abbrev or_else : Option Bytes → Option Bytes → Option Bytes
or_else none second = second
or_else (some v) second = some v

abbrev pub or_fallback : Bytes → Option Bytes → Bytes
or_fallback fallback none = fallback
or_fallback fallback (some v) = if not (is_empty v) then v else fallback

-- strings.IndexByte
index_byte : ℕ → Bytes → Option ℕ
index_byte c [] = none
index_byte c (d ∷ s) =
    let rest = index_byte c s in
    if d == c then some 0 else elim rest [ none ↦ none | some i ↦ some (suc i) ]

-- `if index > 0 { return record.Message[:index] }`
abbrev segment : Bytes → Bytes → Option ℕ → Bytes
segment fallback message none = fallback
segment fallback message (some zero) = fallback
segment fallback message (some (suc i)) = take (suc i) message

abbrev pub Children : Type 0 → Type 0
Children H = List (Bytes × Option H)

unfoldable pub lookup : {H : Type 0} → Bytes → Children H → Option (Option H)
lookup k [] = none
lookup k ((j, h) ∷ children) = let rest = lookup k children in if same j k then some h else rest

module _ {H : Type 0} where
  unfoldable pub attr_concern : Router H → Record → Option Bytes
  unfolding first_value
  attr_concern router r =
      or_else (first_value router.concern_attr router.attrs)
        (first_value router.concern_attr r.attrs)

  unfoldable pub concern_of : Router H → Record → Bytes
  unfolding attr_concern index_byte
  concern_of router r =
      if not (is_empty router.concern_attr)
      then or_fallback router.fallback_concern (attr_concern router r)
      else segment router.fallback_concern r.message (index_byte b'.' r.message)

  unfoldable pub enabled : Router H → Ctx → ℤ → Bool
  enabled router ctx level = leb_ℤ router.level level

  unfoldable pub with_attrs : Router H → List Attr → Router H
  with_attrs router attrs = record router { attrs = router.attrs ++ attrs }

  unfoldable pub with_group : Router H → Bytes → Router H
  with_group router name =
      if is_empty name then router else record router { groups = router.groups ++ name ∷ [] }

-- os.MkdirAll, whose error is dropped, and FileJSON.
pub record FileMaker (H W : Type 0) : Type 0 where
  pub mkdir_all : Bytes → W → W
  pub file_json : Bytes → ℤ → RotationConfig → W → H × W

module _ {H W : Type 0} (ops : HandlerOps H W) where
  in_groups : List Bytes → H → H
  in_groups [] h = h
  in_groups (name ∷ groups) h = in_groups groups (ops.with_group h name)

  unfoldable pub apply_state : Router H → Option H → Option H
  unfolding in_groups
  apply_state router none = none
  apply_state router (some h) =
      let inner = in_groups router.groups h in
      some (if not (is_empty router.attrs) then ops.with_attrs inner router.attrs else inner)

  -- `if h != nil && h.Enabled(…) { _ = h.Handle(…) }`
  unfoldable pub offer : Ctx → Record → Option H → W → W
  offer ctx r none w = w
  offer ctx r (some h) w = if ops.enabled h ctx r.level then (ops.handle h ctx r w).1 else w

module _ {H W : Type 0} (files : FileMaker H W) where
  -- A concern that is not in the map yet.
  make_child : Router H → Bytes → Children H × W → Option H × (Children H × W)
  make_child router concern (children, w) =
      let rel = router.path_for_concern concern in
      let path = join_path router.dir rel in
      let (h, w') =
        files.file_json path (router.level_for_concern concern) router.rotation
          (files.mkdir_all (dir_of path) w) in
      if is_empty rel
      then (none, ((concern, none) ∷ children, w))
      else (some h, ((concern, some h) ∷ children, w'))

  unfoldable pub child_for : Router H → Bytes → Children H × W → Option H × (Children H × W)
  unfolding make_child
  child_for router concern (children, w) = elim (lookup concern children) [
    | some h ↦ (h, (children, w))
    | none ↦ make_child router concern (children, w)
  ]

module _ {H W : Type 0} (ops : HandlerOps H W) (files : FileMaker H W) where
  -- The result is nil on every path.
  unfoldable pub handle : Router H → Ctx → Record → Children H × W → Children H × W
  handle router ctx r (children, w) =
      let w1 = offer ops ctx r (apply_state ops router router.combined) w in
      let (child, (children', w2)) = child_for files router (concern_of router r) (children, w1) in
      (children', offer ops ctx r (apply_state ops router child) w2)

  -- The router as a handler of log/slog.
  unfoldable pub router_ops : HandlerOps (Router H) (Children H × W)
  unfolding enabled handle with_attrs with_group
  router_ops = record {
    enabled = enabled;
    handle = λ router ctx r st. (none, handle router ctx r st);
    with_attrs = with_attrs;
    with_group = with_group;
  }
