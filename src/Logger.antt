-- ===== src/Logger.antt =====
-- context.go: the logger on a context. A *slog.Logger is its address, and `default` is that of
-- slog.Default.
use gklog.Base.{ℕ, List, [], ◌∷◌, Option, none, some, ◌≡◌, refl}
use gklog.Ctx.{Ctx, Binding, correlation, logger, request_id, query_start, query_span, foreign}
use gklog.Correlation.Context.{Context}
use gklog.Correlation.Carry.{from_context, with_context}

-- The value under contextLoggerKey: `none` if there is none, or if it is the nil pointer.
find_logger : List Binding → Option ℕ
find_logger [] = none
find_logger (logger v ∷ chain) = v
find_logger (correlation c ∷ chain) = find_logger chain
find_logger (request_id r ∷ chain) = find_logger chain
find_logger (query_start t ∷ chain) = find_logger chain
find_logger (query_span n ∷ chain) = find_logger chain
find_logger (foreign n v ∷ chain) = find_logger chain

abbrev or_default : ℕ → Option ℕ → ℕ
or_default default none = default
or_default default (some v) = v

unfoldable pub with_logger : Ctx → Option ℕ → Ctx
with_logger ctx none = ctx
with_logger none (some log) = some (logger (some log) ∷ [])
with_logger (some chain) (some log) = some (logger (some log) ∷ chain)

unfoldable pub logger_from_context : ℕ → Ctx → ℕ
unfolding find_logger
logger_from_context default none = default
logger_from_context default (some chain) = or_default default (find_logger chain)

-- Storing a logger and storing a correlation do not disturb each other, on any context, the nil one
-- included: a logger that is not nil is found again, also behind a correlation stored later, a nil
-- one changes nothing, and the correlation is the one that was there before.
with_logger_apart :
    (default : ℕ) (ctx : Ctx) (log : ℕ) (c : Context)
    → (logger_from_context default (with_logger ctx (some log)) ≡ log)
      × (logger_from_context default (with_context (with_logger ctx (some log)) c) ≡ log)
      × (logger_from_context default (with_logger ctx none) ≡ logger_from_context default ctx)
      × (logger_from_context default (with_context ctx c) ≡ logger_from_context default ctx)
      × (from_context (with_logger ctx (some log)) ≡ from_context ctx)
unfolding logger_from_context with_logger with_context from_context
with_logger_apart default none log c = (refl, refl, refl, refl, refl)
with_logger_apart default (some chain) log c = (refl, refl, refl, refl, refl)
