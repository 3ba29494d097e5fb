-- ===== src/Factory.antt =====
-- factory.go: Config, New, the closer of a list of handlers, and ParseLevel; handlers.go: trimUpper.
pub mod Laws
use gklog.Base.{List, [], ◌∷◌, Option, none, some, Bool, true, false, ◌||◌, if◌then◌else◌}
use gklog.Base.Int.{ℤ}
use gklog.Text.{Bytes, codes, same}
use gklog.Text.Trim.{trim_space}
use gklog.Text.Case.{to_upper}
use gklog.Errors.{Error}
use gklog.Slog.{
  level_debug, level_info, level_warn, level_error, string_attr, HandlerOps, CloserOps,
}
use gklog.Tee.{TeeHandler, new_tee_handler, with_attrs}

pub record HandlerListCloser (H : Type 0) : Type 0 where
  pub handlers : List H
  pub closed : Bool

-- `if closeErr != nil && first == nil { first = closeErr }`
abbrev keep_first : Option Error → Option Error → Option Error
keep_first none e = e
keep_first (some f) e = some f

module _ {H W : Type 0} (closers : CloserOps H W) where
  -- One round of the loop: a handler that is no closer is passed over.
  close_one : Option (W → Option Error × W) → Option Error × W → Option Error × W
  close_one none (first, w) = (first, w)
  close_one (some run) (first, w) = let (e, w') = run w in (keep_first first e, w')

  close_all : List H → Option Error × W → Option Error × W
  close_all [] st = st
  close_all (h ∷ handlers) st = close_all handlers (close_one (closers.close h) st)

  unfoldable pub close : HandlerListCloser H → W → (Option Error × HandlerListCloser H) × W
  unfolding close_one close_all
  close c w =
      if c.closed
      then ((none, c), w)
      else (let (first, w') = close_all c.handlers (none, w) in
          ((first, record c { closed = true }), w'))

pub record Config (H : Type 0) : Type 0 where
  pub build_version : Bytes
  pub handlers : List H

-- New: the handler of the logger, and the closer.
unfoldable pub new : {H W : Type 0} → HandlerOps H W → Config H → TeeHandler H × HandlerListCloser H
new ops cfg = (
  with_attrs ops (new_tee_handler cfg.handlers)
      (string_attr (codes "build") cfg.build_version ∷ []),
  record { handlers = cfg.handlers; closed = false },
)

-- trimUpper of handlers.go
unfoldable pub trim_upper : (Bytes → Bytes) → Bytes → Bytes
trim_upper unicode_upper s = to_upper unicode_upper (trim_space s)

-- The switch of ParseLevel.
level_named : Bytes → ℤ
level_named name =
    if same name (codes "DEBUG")
    then level_debug
    else if same name (codes "INFO")
    then level_info
    else if same name (codes "WARN") || same name (codes "WARNING")
    then level_warn
    else if same name (codes "ERROR")
    then level_error
    else level_warn

unfoldable pub parse_level : (Bytes → Bytes) → Bytes → ℤ
unfolding level_named trim_upper
parse_level unicode_upper s = level_named (trim_upper unicode_upper s)

unfoldable pub parse_email_min_level : (Bytes → Bytes) → Bytes → ℤ
unfolding parse_level
parse_email_min_level unicode_upper s = parse_level unicode_upper s
