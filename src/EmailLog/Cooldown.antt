-- ===== src/EmailLog/Cooldown.antt =====
-- The cooldown over a whole run: which records are emailed, and how far apart.
use gklog.Base.{ℕ, List, [], ◌∷◌, Option, some, not, ◌&&◌, ◌≡◌, refl, arith, if◌then◌else◌}
use gklog.Base.Int.{leb_ℤ}
use gklog.Text.{Bytes, same, same_iff}
use gklog.Errors.{Error}
use gklog.Slog.{Record}
use gklog.Ctx.{Ctx}
use gklog.EmailLog.{Handler, Email, Env, Times, last_sent, note_sent, suppressed, handle}

pub last_sent-note_sent :
    (times : Times) (m k : Bytes) (t : ℕ)
    → last_sent (note_sent times m t) k ≡ (if same m k then some t else last_sent times k)
unfolding last_sent note_sent
last_sent-note_sent [] m k t = refl
last_sent-note_sent ((j, u) ∷ times) m k t =
    ground (arith, last_sent-note_sent times m k t, same_iff j m, same_iff j k, same_iff m k)

-- A world for watching the handler: the reading of the clock and the message of the record that is
-- handled now, and what was sent so far with its time, newest first. Sending may fail.
pub record Watch : Type 0 where
  pub reading : ℕ
  pub current : Bytes
  pub sent : Times

watching : (Email → Option Error) → (ℕ → Bytes) → Env Watch
watching outcome rfc3339 = record {
  now = λ w. (w.reading, w);
  send = λ ctx email w. (outcome email, record w { sent = (w.current, w.reading) ∷ w.sent });
  rfc3339 = rfc3339;
}

-- One record, handled at a time by some clone of the handler; clones share the map of times.
pub record Event : Type 0 where
  pub by : Handler
  pub at : ℕ
  pub of : Record

module _ (outcome : Email → Option Error) (rfc3339 : ℕ → Bytes) (ctx : Ctx) where
  unfoldable pub step : Event → Times × Watch → Times × Watch
  unfolding watching
  step e (times, w) =
      (handle (watching outcome rfc3339) e.by ctx e.of
        (times, record w { reading = e.at; current = e.of.message })).1

  unfoldable pub run : List Event → Times × Watch → Times × Watch
  run [] st = st
  run (e ∷ events) st = run events (step e st)

  -- The whole effect of a step on what was sent: a record is sent exactly if it reaches the
  -- threshold and its message is not cooling down, also if sending fails.
  pub step-sent :
      (e : Event) (times : Times) (w : Watch)
      → (step e (times, w)).1.sent ≡ (
          if leb_ℤ e.by.threshold e.of.level
            && not (suppressed (last_sent times e.of.message) e.at e.by.cooldown)
          then (e.of.message, e.at) ∷ w.sent
          else w.sent)
  unfolding step handle
  step-sent e times w = ground arith

  pub step-times :
      (e : Event) (times : Times) (w : Watch)
      → (step e (times, w)).0 ≡ (
          if leb_ℤ e.by.threshold e.of.level
            && not (suppressed (last_sent times e.of.message) e.at e.by.cooldown)
          then note_sent times e.of.message e.at
          else times)
  unfolding step handle
  step-times e times w = ground arith
