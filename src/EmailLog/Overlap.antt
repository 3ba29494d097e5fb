-- ===== src/EmailLog/Overlap.antt =====
-- Handle in several goroutines at once: the mutex is held for the cooldown test and the note of the
-- time, and not while the email is sent, so emails may be sent in another order.
pub mod Laws
use mathlib.Core.List.{Perm}
use mathlib.Core.List.Perm
use gklog.Base.{
  ℕ, zero, suc, List, [], ◌∷◌, ◌++◌, Option, none, some, Bool, true, false, not, ◌&&◌, ◌≡◌, refl,
  ap, ◌∙◌, map, map-append, append_assoc, if◌then◌else◌, Bool-cases, inl, inr, arith,
}
use gklog.Base.Int.{leb_ℤ}
use gklog.Text.{Bytes}
use gklog.Errors.{Error}
use gklog.Ctx.{Ctx}
use gklog.EmailLog.{
  Email, Env, Times, last_sent, note_sent, suppressed, wrap_send, email_of, admit, after_admit,
  deliver, handle,
}
use gklog.EmailLog.Cooldown.{Event}

-- A world for watching the sender: the reading of the clock, and the emails that were sent.
pub record Posted : Type 0 where
  pub reading : ℕ
  pub sent : List Email

-- The map of times, the calls of Handle that are between their Unlock and their Send, and the world.
pub record Calls : Type 0 where
  pub times : Times
  pub pending : List Event
  pub world : Posted

-- A call of Handle runs up to its last Unlock, or one of those that are pending goes on with Send.
pub data Move : Type 0 where
  starts : Event → Move
  sends : ℕ → Move

abbrev pub put_back : Event → Option (Event × List Event) → Option (Event × List Event)
put_back e none = none
put_back e (some (e', rest)) = some (e', e ∷ rest)

unfoldable pub take_out : ℕ → List Event → Option (Event × List Event)
take_out i [] = none
take_out zero (e ∷ es) = some (e, es)
take_out (suc i) (e ∷ es) = put_back e (take_out i es)

abbrev pub events_of : List Move → List Event
events_of [] = []
events_of (starts e ∷ moves) = e ∷ events_of moves
events_of (sends i ∷ moves) = events_of moves

module _ (outcome : Email → Option Error) (rfc3339 : ℕ → Bytes) (ctx : Ctx) where
  unfoldable pub posting : Env Posted
  posting = record {
    now = λ w. (w.reading, w);
    send = λ ctx email w. (outcome email, record w { sent = w.sent ++ email ∷ [] });
    rfc3339 = rfc3339;
  }

  abbrev pub email_for : Event → Email
  email_for e = email_of rfc3339 e.by e.of

  -- A call of Handle that runs by itself.
  unfoldable pub alone : Event → Times × Posted → Times × Posted
  unfolding posting
  alone e (times, w) = (handle posting e.by ctx e.of (times, record w { reading = e.at })).1

  unfoldable pub one_by_one : List Event → Times × Posted → Times × Posted
  one_by_one [] st = st
  one_by_one (e ∷ es) st = one_by_one es (alone e st)

  unfoldable pub send_taken : Option (Event × List Event) → Calls → Calls
  unfolding posting
  send_taken none st = st
  send_taken (some (e, rest)) st = record st {
    pending = rest;
    world = (deliver posting e.by ctx e.of st.world).1;
  }

  unfoldable pub move : Move → Calls → Calls
  unfolding posting send_taken take_out
  move (starts e) st =
      let (due, (times, w)) =
        admit posting e.by e.of (st.times, record st.world { reading = e.at }) in
      record {
        times = times;
        pending = if due then st.pending ++ e ∷ [] else st.pending;
        world = w;
      }
  move (sends i) st = send_taken (take_out i st.pending) st

  unfoldable pub run_moves : List Move → Calls → Calls
  run_moves [] st = st
  run_moves (m ∷ moves) st = run_moves moves (move m st)
