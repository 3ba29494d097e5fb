-- ===== src/Ctx.antt =====
-- context.Context as the chain of values that context.WithValue builds, newest first; `none` is the
-- nil interface. Every package has a key type of its own, so each kind of value is a constructor.
use gklog.Base.{ℕ, List, Option}
use gklog.Text.{Bytes}
use gklog.Correlation.Context.{Context}

pub data Binding : Type 0 where
  -- correlation.contextKey
  correlation : Context → Binding
  -- gklog.contextLoggerKey; a *slog.Logger is its address, `none` the nil pointer
  logger : Option ℕ → Binding
  -- trace.requestIDKey
  request_id : Bytes → Binding
  -- trace.queryStartKey, the time, and trace.querySpanKey, the span
  query_start : ℕ → Binding
  query_span : ℕ → Binding
  -- a value under a key of other code: a number for the key, and a table of texts
  foreign : ℕ → List (Bytes × List Bytes) → Binding

abbrev pub Ctx : Type 0
Ctx = Option (List Binding)
