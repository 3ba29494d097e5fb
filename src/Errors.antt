-- ===== src/Errors.antt =====
-- The error values of the program. An error of other code is its text; each wrapper type of the
-- program is a constructor. `error_text` is the method Error, `unwrap` the method Unwrap.
-- correlation/handler.go, handlers.go, emaillog/handler.go, trace/middleware.go, trace/setup.go.
use gklog.Base.{ℕ, length, List, [], ◌∷◌, ◌++◌}
use gklog.Text.{Bytes, codes}
use gklog.Text.Parts.{join}
use gklog.Text.Decimal.{decimal}

mutual
  pub data Error : Type 0 where
    foreign : Bytes → Error
    handle_error : Error → Error
    close_error : Error → Error
    handler_close_error : Error → Error
    tee_child_error : Errors → Error
    locked_write_error : Bytes → Error → Error
    send_error : Error → Error
    response_write_error : Error → Error
    otel_setup_error : Bytes → Error → Error
    shutdown_error : Errors → Error

  pub data Errors : Type 0 where
    nil : Errors
    cons : Error → Errors → Errors

abbrev pub to_list : Errors → List Error
to_list nil = []
to_list (cons e es) = e ∷ to_list es

abbrev pub of_list : List Error → Errors
of_list [] = nil
of_list (e ∷ es) = cons e (of_list es)

-- What the method Error of each wrapper puts around the text of the error inside.
abbrev handle_error_text : Bytes → Bytes
handle_error_text inner = codes "gklog/correlation: handle: " ++ inner

abbrev close_error_text : Bytes → Bytes
close_error_text inner = codes "gklog/correlation: close: " ++ inner

abbrev handler_close_error_text : Bytes → Bytes
handler_close_error_text inner = codes "gklog: close handler writer: " ++ inner

abbrev tee_child_error_text : List Bytes → Bytes
tee_child_error_text parts = codes "tee handler: " ++ join parts (codes "; ")

abbrev locked_write_error_text : Bytes → Bytes → Bytes
locked_write_error_text op inner = codes "gklog: locked writer " ++ (op ++ (codes ": " ++ inner))

abbrev send_error_text : Bytes → Bytes
send_error_text inner = codes "emaillog: send: " ++ inner

abbrev response_write_error_text : Bytes → Bytes
response_write_error_text inner = codes "trace: response write: " ++ inner

abbrev otel_setup_error_text : Bytes → Bytes → Bytes
otel_setup_error_text op inner = codes "trace: " ++ (op ++ (codes ": " ++ inner))

abbrev shutdown_error_text : ℕ → Bytes
shutdown_error_text count = codes "trace: shutdown: " ++ (decimal count ++ codes " error(s)")

unfoldable mutual
  pub error_text : Error → Bytes
  error_text (foreign text) = text
  error_text (handle_error e) = handle_error_text (error_text e)
  error_text (close_error e) = close_error_text (error_text e)
  error_text (handler_close_error e) = handler_close_error_text (error_text e)
  error_text (tee_child_error es) = tee_child_error_text (error_texts es)
  error_text (locked_write_error op e) = locked_write_error_text op (error_text e)
  error_text (send_error e) = send_error_text (error_text e)
  error_text (response_write_error e) = response_write_error_text (error_text e)
  error_text (otel_setup_error op e) = otel_setup_error_text op (error_text e)
  error_text (shutdown_error es) = shutdown_error_text (length (to_list es))

  pub error_texts : Errors → List Bytes
  error_texts nil = []
  error_texts (cons e es) = error_text e ∷ error_texts es

unfoldable pub unwrap : Error → List Error
unwrap (foreign text) = []
unwrap (handle_error e) = e ∷ []
unwrap (close_error e) = e ∷ []
unwrap (handler_close_error e) = e ∷ []
unwrap (tee_child_error es) = to_list es
unwrap (locked_write_error op e) = e ∷ []
unwrap (send_error e) = e ∷ []
unwrap (response_write_error e) = e ∷ []
unwrap (otel_setup_error op e) = e ∷ []
unwrap (shutdown_error es) = to_list es
