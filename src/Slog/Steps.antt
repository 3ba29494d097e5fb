-- ===== src/Slog/Steps.antt =====
-- The calls of WithAttrs and WithGroup that derive a handler from another.
use gklog.Base.{List}
use gklog.Text.{Bytes}
use gklog.Slog.{Attr}

pub data Step : Type 0 where
  bind : List Attr → Step
  enter : Bytes → Step
