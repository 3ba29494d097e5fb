-- ===== src/Tee.antt =====
-- handlers.go: TeeHandler, which fans a record out to child handlers of any kind.
pub mod Laws
use gklog.Base.{
  List, [], ◌∷◌, ◌++◌, Option, none, some, Bool, true, false, not, map, if◌then◌else◌, is_empty,
}
use gklog.Base.Int.{ℤ}
use gklog.Text.{Bytes}
use gklog.Errors.{Error, tee_child_error, of_list}
use gklog.Slog.{Attr, Record, HandlerOps}
use gklog.Ctx.{Ctx}

pub record TeeHandler (H : Type 0) : Type 0 where
  pub children : List H

unfoldable pub new_tee_handler : {H : Type 0} → List H → TeeHandler H
new_tee_handler children = record { children = children }

-- `if err != nil { errs = append(errs, err) }`
abbrev append_error : List Error → Option Error → List Error
append_error errs none = errs
append_error errs (some e) = errs ++ e ∷ []

module _ {H W : Type 0} (ops : HandlerOps H W) where
  any_enabled : List H → Ctx → ℤ → Bool
  any_enabled [] ctx level = false
  any_enabled (h ∷ children) ctx level =
      let rest = any_enabled children ctx level in if ops.enabled h ctx level then true else rest

  unfoldable pub enabled : TeeHandler H → Ctx → ℤ → Bool
  unfolding any_enabled
  enabled t ctx level = any_enabled t.children ctx level

  -- One round of the loop of Handle.
  offer : Ctx → Record → H → List Error × W → List Error × W
  offer ctx r h (errs, w) =
      if not (ops.enabled h ctx r.level)
      then (errs, w)
      else (let (e, w') = ops.handle h ctx r w in (append_error errs e, w'))

  offer_all : Ctx → Record → List H → List Error × W → List Error × W
  offer_all ctx r [] st = st
  offer_all ctx r (h ∷ children) st = offer_all ctx r children (offer ctx r h st)

  tee_result : List Error × W → Option Error × W
  tee_result (errs, w) =
      if is_empty errs then (none, w) else (some (tee_child_error (of_list errs)), w)

  unfoldable pub handle : TeeHandler H → Ctx → Record → W → Option Error × W
  unfolding offer offer_all tee_result
  handle t ctx r w = tee_result (offer_all ctx r t.children ([], w))

  unfoldable pub with_attrs : TeeHandler H → List Attr → TeeHandler H
  with_attrs t attrs = record { children = map (λ h. ops.with_attrs h attrs) t.children }

  unfoldable pub with_group : TeeHandler H → Bytes → TeeHandler H
  with_group t name = record { children = map (λ h. ops.with_group h name) t.children }
