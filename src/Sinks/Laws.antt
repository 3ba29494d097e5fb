-- ===== src/Sinks/Laws.antt =====
-- Closing a handler that was derived from one over a closable handler.
use gklog.Base.{List, [], ◌∷◌, Option, none, some, ◌≡◌, refl, ◌∙◌, ap}
use gklog.Errors.{Error, close_error, handler_close_error}
use gklog.Slog.Steps.{Step, bind, enter}
use gklog.Slog.{HandlerOps}
use gklog.Correlation.Handler.{SlogHandler}
use gklog.Correlation.Handler as Correlated
use gklog.Sinks.{ClosableHandler, wrap_close, close_by, close, closable_ops, closable_closers}

-- Both wrappers around an error of the writer.
abbrev pub reported : {W : Type 0} → Option Error × W → Option Error × W
reported (none, w) = (none, w)
reported (some e, w) = (some (close_error (handler_close_error e)), w)

abbrev pub closing : {W : Type 0} → Option (W → Option Error × W) → W → Option Error × W
closing none w = (none, w)
closing (some run) w = reported (run w)

wrapped_twice :
    {W : Type 0} (x : Option Error × W) → Correlated.wrap_close (wrap_close x) ≡ reported x
unfolding Correlated.wrap_close
wrapped_twice (none, w) = refl
wrapped_twice (some e, w) = refl

close_by-closing :
    {W : Type 0} (c : Option (W → Option Error × W)) (w : W)
    → Correlated.wrap_close (close_by c w) ≡ closing c w
close_by-closing none w = unfold Correlated.wrap_close in refl
close_by-closing (some run) w = wrapped_twice (run w)

module _ {H W : Type 0} (ops : HandlerOps H W) where
  abbrev pub derive : SlogHandler (ClosableHandler H W) → Step → SlogHandler (ClosableHandler H W)
  derive h (bind attrs) = Correlated.with_attrs (closable_ops ops) h attrs
  derive h (enter name) = Correlated.with_group (closable_ops ops) h name

  unfoldable pub derive_all :
      SlogHandler (ClosableHandler H W) → List Step → SlogHandler (ClosableHandler H W)
  derive_all h [] = h
  derive_all h (s ∷ steps) = derive_all (derive h s) steps

  same_closer :
      (h : SlogHandler (ClosableHandler H W)) (s : Step) → (derive h s).next.closer ≡ h.next.closer
  unfolding Correlated.with_attrs Correlated.with_group closable_ops
  same_closer h (bind attrs) = refl
  same_closer h (enter name) = refl

  derive_all-closer :
      (h : SlogHandler (ClosableHandler H W)) (steps : List Step)
      → (derive_all h steps).next.closer ≡ h.next.closer
  unfolding derive_all
  derive_all-closer h [] = refl
  derive_all-closer h (s ∷ steps) = derive_all-closer (derive h s) steps ∙ same_closer h s

  close-closing :
      (h : SlogHandler (ClosableHandler H W)) (w : W)
      → Correlated.close closable_closers h w ≡ closing h.next.closer w
  unfolding Correlated.close closable_closers close
  close-closing h w = close_by-closing h.next.closer w

  -- Whatever WithAttrs and WithGroup calls derived it, a correlation handler over a closable handler
  -- closes the writer that the first one had, if any: Close runs the writer's Close and reports its
  -- error inside both wrappers.
  pub close-derive_all :
      (h : SlogHandler (ClosableHandler H W)) (steps : List Step) (w : W)
      → Correlated.close closable_closers (derive_all h steps) w ≡ closing h.next.closer w
  close-derive_all h steps w =
      close-closing (derive_all h steps) w ∙ ap (λ c. closing c w) (derive_all-closer h steps)
