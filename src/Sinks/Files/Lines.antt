-- ===== src/Sinks/Files/Lines.antt =====
-- What a handler of FileText leaves in its log.
use gklog.Base.{ℕ, List, [], ◌∷◌, ◌++◌, none, ◌≡◌, refl, ap, ◌∙◌}
use gklog.Text.{Bytes}
use gklog.Slog.Steps.{Step, bind, enter}
use gklog.Slog.{Record}
use gklog.Ctx.{Ctx}
use gklog.LockedWriter.{FileOps, LockedWriter}
use gklog.Rotation.{RotationConfig}
use gklog.TextHandler.{TextHandler, new_text_handler, line_of}
use gklog.TextHandler as Text
use gklog.TextHandler.Fields.{fields}
use gklog.TextHandler.Laws.{front_of}
use gklog.TextHandler.Laws as Lines
use gklog.Sinks.{ClosableHandler, closable_ops}
use gklog.Sinks as Sinks
use gklog.Sinks.Files.{Opener, write_line, text_ops, file_text}

module _ {W : Type 0} (stamp : ℕ → Bytes) (files : FileOps W) where
  unfoldable pub derive :
      ClosableHandler TextHandler (LockedWriter × W)
      → Step
      → ClosableHandler TextHandler (LockedWriter × W)
  derive h (bind attrs) = (closable_ops (text_ops stamp files)).with_attrs h attrs
  derive h (enter name) = (closable_ops (text_ops stamp files)).with_group h name

  unfoldable pub derive_all :
      ClosableHandler TextHandler (LockedWriter × W)
      → List Step
      → ClosableHandler TextHandler (LockedWriter × W)
  unfolding derive
  derive_all h [] = h
  derive_all h (s ∷ steps) = derive_all (derive h s) steps

  derive-handler :
      (h : ClosableHandler TextHandler (LockedWriter × W)) (s : Step)
      → (derive h s).handler ≡ Lines.derive h.handler s
  unfolding derive closable_ops Sinks.with_attrs Sinks.with_group text_ops Lines.derive
  derive-handler h (bind attrs) = refl
  derive-handler h (enter name) = refl

  pub derive_all-handler :
      (h : ClosableHandler TextHandler (LockedWriter × W)) (steps : List Step)
      → (derive_all h steps).handler ≡ Lines.derive_all h.handler steps
  unfolding derive_all Lines.derive_all
  derive_all-handler h [] = refl
  derive_all-handler h (s ∷ steps) =
      derive_all-handler (derive h s) steps
      ∙ ap (λ t. Lines.derive_all t steps) (derive-handler h s)

  pub handle-line :
      (h : ClosableHandler TextHandler (LockedWriter × W)) (ctx : Ctx) (r : Record)
      (st : LockedWriter × W)
      → (closable_ops (text_ops stamp files)).handle h ctx r st
        ≡ (none, write_line files (line_of stamp h.handler r) st)
  unfolding closable_ops text_ops Text.handle
  handle-line h ctx r st = refl

-- The line of a record under the steps that derived its handler.
abbrev pub line_for : (ℕ → Bytes) → Bytes → List Step → Record → Bytes
line_for stamp label steps r = front_of stamp label r ++ (fields [] steps r.attrs ++ 10 ∷ [])

pub file_text-handler :
    {W : Type 0} (opener : Opener W) (path label : Bytes) (rot : RotationConfig)
    → (file_text opener path label rot).handler ≡ new_text_handler label
unfolding file_text
file_text-handler opener path label rot = refl
