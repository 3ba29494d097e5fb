-- ===== src/Sinks.antt =====
-- handlers.go: closableHandler, a handler with the closer of its writer, over any inner handler.
pub mod Laws
pub mod Files
use gklog.Base.{List, Option, none, some, Bool}
use gklog.Base.Int.{ℤ}
use gklog.Text.{Bytes}
use gklog.Errors.{Error, handler_close_error}
use gklog.Slog.{Attr, Record, HandlerOps, CloserOps}
use gklog.Ctx.{Ctx}

pub record ClosableHandler (H W : Type 0) : Type 0 where
  pub handler : H
  pub closer : Option (W → Option Error × W)

abbrev pub wrap_close : {W : Type 0} → Option Error × W → Option Error × W
wrap_close (none, w) = (none, w)
wrap_close (some e, w) = (some (handler_close_error e), w)

-- The nil closer does nothing.
abbrev pub close_by : {W : Type 0} → Option (W → Option Error × W) → W → Option Error × W
close_by none w = (none, w)
close_by (some run) w = wrap_close (run w)

unfoldable pub close : {H W : Type 0} → ClosableHandler H W → W → Option Error × W
close h w = close_by h.closer w

module _ {H W : Type 0} (ops : HandlerOps H W) where
  unfoldable pub with_attrs : ClosableHandler H W → List Attr → ClosableHandler H W
  with_attrs h attrs = record h { handler = ops.with_attrs h.handler attrs }

  unfoldable pub with_group : ClosableHandler H W → Bytes → ClosableHandler H W
  with_group h name = record h { handler = ops.with_group h.handler name }

  -- The embedded handler answers Enabled and Handle.
  unfoldable pub closable_ops : HandlerOps (ClosableHandler H W) W
  unfolding with_attrs with_group
  closable_ops = record {
    enabled = λ h ctx level. ops.enabled h.handler ctx level;
    handle = λ h ctx r w. ops.handle h.handler ctx r w;
    with_attrs = with_attrs;
    with_group = with_group;
  }

unfoldable pub closable_closers : {H W : Type 0} → CloserOps (ClosableHandler H W) W
unfolding close
closable_closers = record { close = λ h. some (close h) }
