-- ===== src/Tests/Handlers.antt =====
-- The theorems on the handlers and the closer, applied.
use mathlib.Core.List.{Perm}
use gklog.Base.{map, ◌++◌, ℕ, List, [], ◌∷◌, Option, none, some, true, false, ◌≡◌, refl, arith}
use gklog.Base.Int.{pos}
use gklog.Text.{Bytes, codes}
use gklog.Errors.{Error, of_list, handle_error, tee_child_error}
use gklog.Slog.{string_attr}
use gklog.Correlation.Handler.{SlogHandler, enhance, wrap_handle}
use gklog.Correlation.Handler as Correlated
use gklog.Correlation.Handler.Laws.{Completes, enhance-Completes}
use gklog.Correlation.Handler.Strict.{at, hand_on, passed_on, handle_passes_on}
use gklog.Correlation.Carry.{from_context}
use gklog.Correlation.Attrs.{attrs_of}
use gklog.Time.{sub_time}
use gklog.EmailLog.{
  Handler, Email, suppressed, last_sent, note_sent, email_of, admit, deliver, after_admit, handle,
}
use gklog.EmailLog.Overlap.Laws.{run_moves-one_by_one}
use gklog.EmailLog.Overlap.{Posted, Move, starts, sends, events_of, one_by_one, move, run_moves}
use gklog.EmailLog.Cooldown.{Event, Watch, step, run}
use gklog.EmailLog.Spacing.{Spaced, run-Spaced, run-sent}
use gklog.Tee.{TeeHandler}
use gklog.Tee as Tee
use gklog.Tee.Laws.{each, accepting, error_of, handle_each}
use gklog.Factory.{HandlerListCloser, parse_level, trim_upper}
use gklog.Factory as Factory
use gklog.Factory.Laws.{closable, run_each, close_once}
use gklog.Tests.World.{caller, calling, entry, numbered, closable_two}

abbrev strict_handler : SlogHandler ℕ
strict_handler = record {
  next = 5;
  attrs = string_attr (codes "app") (codes "a") ∷ [];
  strict = true;
  required = codes "app" ∷ codes "tenant" ∷ [];
}

enhance-Completes_example :
    Completes strict_handler caller entry (enhance strict_handler caller entry)
enhance-Completes_example = enhance-Completes strict_handler caller entry

handle_passes_on_example :
    Correlated.handle numbered (at 9) strict_handler calling entry []
    ≡ wrap_handle
        (hand_on numbered 5 calling (passed_on strict_handler (from_context calling) entry 9) [])
handle_passes_on_example = handle_passes_on numbered strict_handler calling entry 9 []

handle_fails :
    (Correlated.handle numbered (λ w. (0, w)) strict_handler none entry []).0
    ≡ some (handle_error (Error.foreign (codes "full")))
unfolding Correlated.handle wrap_handle from_context attrs_of
handle_fails = refl

abbrev mailer : Handler
mailer = record {
  subject_prefix = codes "svc";
  threshold = pos 8;
  cooldown = pos 60;
  to = codes "ops";
  attrs = [];
  group = [];
}

abbrev outage : Event
outage = record { by = mailer; at = 100; of = entry }

abbrev again : Event
again = record { by = mailer; at = 130; of = entry }

abbrev later : Event
later = record { by = mailer; at = 160; of = entry }

abbrev outcome : Email → Option Error
outcome email = some (Error.foreign (codes "no route"))

abbrev no_date : ℕ → Bytes
no_date t = []

abbrev fresh : Watch
fresh = record { reading = 0; current = []; sent = [] }

run-sent_example :
    (step outcome no_date none later
      (run outcome no_date none (outage ∷ again ∷ []) ([], fresh))).1.sent
    ≡ (codes "boom", 160) ∷ (codes "boom", 100) ∷ []
unfolding run step handle after_admit admit deliver suppressed last_sent note_sent sub_time
run-sent_example =
    run-sent outcome no_date none 60 (outage ∷ again ∷ []) 0 [] later (refl, (refl, tt)) refl
      (omega arith)

run-Spaced_example : Spaced 60 (run outcome no_date none (outage ∷ again ∷ []) ([], fresh)).1.sent
run-Spaced_example =
    run-Spaced outcome no_date none 60 (outage ∷ again ∷ []) 0 [] (refl, (refl, tt))

abbrev slow : Event
slow = record { by = mailer; at = 110; of = record entry { message = codes "slow" } }

-- The second of two calls is the first to send.
abbrev crossing : List Move
crossing = starts outage ∷ starts slow ∷ starts again ∷ sends 1 ∷ sends 0 ∷ []

run_moves-one_by_one_example :
    let new : Posted = record { reading = 0; sent = [] } in
    let st =
      run_moves outcome no_date none crossing (record { times = []; pending = []; world = new }) in
    let (times, w) = one_by_one outcome no_date none (events_of crossing) ([], new) in
    (st.times ≡ times)
    × Perm (st.world.sent ++ map (λ (e : Event). email_of no_date e.by e.of) st.pending) w.sent
run_moves-one_by_one_example = run_moves-one_by_one outcome no_date none crossing 0

crossed :
    let new : Posted = record { reading = 0; sent = [] } in
    let st =
      run_moves outcome no_date none crossing (record { times = []; pending = []; world = new }) in
    (st.pending ≡ [])
    × (st.world.sent ≡ email_of no_date mailer slow.of ∷ email_of no_date mailer entry ∷ [])
unfolding run_moves move admit deliver suppressed last_sent note_sent sub_time
crossed = (refl, refl)

abbrev children : TeeHandler ℕ
children = record { children = 3 ∷ 9 ∷ 5 ∷ [] }

handle_each_example : Tee.handle numbered children none entry [] ≡ (
  error_of (each numbered none entry (accepting numbered none entry (3 ∷ 9 ∷ 5 ∷ [])) []).0,
  (each numbered none entry (accepting numbered none entry (3 ∷ 9 ∷ 5 ∷ [])) []).1,
)
handle_each_example = handle_each numbered none entry children []

tee_fails :
    (Tee.handle numbered children none entry []).0
    ≡ some (tee_child_error (of_list (Error.foreign (codes "full") ∷ [])))
unfolding Tee.handle
tee_fails = refl

abbrev open_handlers : HandlerListCloser ℕ
open_handlers = record { handlers = 3 ∷ 2 ∷ 1 ∷ 7 ∷ []; closed = false }

close_once_example :
    (Factory.close closable_two open_handlers [] ≡ (
      (some (Error.foreign (codes "stuck")), record open_handlers { closed = true }),
      3 ∷ 2 ∷ 7 ∷ [],
    ))
    × ((w' : List ℕ)
        → Factory.close closable_two (Factory.close closable_two open_handlers []).0.1 w'
          ≡ ((none, (Factory.close closable_two open_handlers []).0.1), w'))
unfolding closable run_each
close_once_example = close_once closable_two open_handlers [] refl
