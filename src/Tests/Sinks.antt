-- ===== src/Tests/Sinks.antt =====
-- Closing a derived handler, at a concrete writer whose Close fails.
use gklog.Base.{ℕ, List, [], ◌∷◌, ◌++◌, some, true, ◌≡◌}
use gklog.Text.{codes}
use gklog.Errors.{foreign, close_error, handler_close_error}
use gklog.Slog.Steps.{Step, bind, enter}
use gklog.Slog.{string_attr}
use gklog.Correlation.Handler.{SlogHandler}
use gklog.Correlation.Handler as Correlated
use gklog.Sinks.{ClosableHandler, closable_closers}
use gklog.Sinks.Laws.{derive_all, close-derive_all}
use gklog.Tests.World.{numbered}

abbrev sink : SlogHandler (ClosableHandler ℕ (List ℕ))
sink = record {
  next = record { handler = 5; closer = some (λ w. (some (foreign (codes "busy")), w ++ 1 ∷ [])) };
  attrs = [];
  strict = true;
  required = [];
}

abbrev calls : List Step
calls = enter (codes "rpc") ∷ bind (string_attr (codes "a") (codes "1") ∷ []) ∷ []

close-derive_all_example :
    Correlated.close closable_closers (derive_all numbered sink calls) []
    ≡ (some (close_error (handler_close_error (foreign (codes "busy")))), 1 ∷ [])
close-derive_all_example = close-derive_all numbered sink calls []
