-- ===== src/EmailLog/Overlap/Laws.antt =====
-- What overlapping calls of Handle send.
use mathlib.Core.List.{Perm}
use mathlib.Core.List.Perm
use gklog.Base.{
  ℕ, zero, suc, List, [], ◌∷◌, ◌++◌, Option, none, some, Bool, true, false, not, ◌&&◌, ◌≡◌, refl,
  ap, ◌∙◌, map, map-append, append_assoc, if◌then◌else◌, Bool-cases, inl, inr, arith,
}
use gklog.Base.Int.{leb_ℤ}
use gklog.Text.{Bytes}
use gklog.Errors.{Error}
use gklog.Ctx.{Ctx}
use gklog.EmailLog.{
  Email, Times, last_sent, note_sent, suppressed, wrap_send, admit, after_admit, deliver, handle,
}
use gklog.EmailLog.Cooldown.{Event}
use gklog.EmailLog.Overlap.{
  Posted, Calls, Move, starts, sends, put_back, take_out, events_of, posting, email_for, alone,
  one_by_one, send_taken, move, run_moves,
}

abbrev Taken : List Event → Option (Event × List Event) → Type 0
Taken es none = Unit
Taken es (some (e, rest)) = Perm (e ∷ rest) es

Taken-put_back :
    (e : Event) (es : List Event) (o : Option (Event × List Event))
    → Taken es o
    → Taken (e ∷ es) (put_back e o)
Taken-put_back e es none h = tt
Taken-put_back e es (some (e', rest)) h = Perm.trans (Perm.swap e e' rest) (Perm.cons e h)

take_out-Taken : (i : ℕ) (es : List Event) → Taken es (take_out i es)
unfolding take_out
take_out-Taken i [] = tt
take_out-Taken zero (e ∷ es) = Perm.rfl
take_out-Taken (suc i) (e ∷ es) = Taken-put_back e es (take_out i es) (take_out-Taken i es)

wrap_send-world : {W : Type 0} (sent : Option Error × W) → (wrap_send sent).1 ≡ sent.1
unfolding wrap_send
wrap_send-world (none, w) = refl
wrap_send-world (some e, w) = refl

module _ (outcome : Email → Option Error) (rfc3339 : ℕ → Bytes) (ctx : Ctx) where
  is_due : Event → Times → Bool
  is_due e times =
      leb_ℤ e.by.threshold e.of.level
      && not (suppressed (last_sent times e.of.message) e.at e.by.cooldown)

  times_after : Event → Times → Times
  unfolding is_due
  times_after e times = if is_due e times then note_sent times e.of.message e.at else times

  -- What the cooldown test says does not depend on what was sent.
  admit-due :
      (e : Event) (times : Times) (w : Posted)
      → admit (posting outcome rfc3339 ctx) e.by e.of (times, record w { reading = e.at })
        ≡ (is_due e times, (times_after e times, record w { reading = e.at }))
  unfolding admit posting is_due times_after
  admit-due e times w = ground arith

  deliver-sent :
      (e : Event) (w : Posted)
      → (deliver (posting outcome rfc3339 ctx) e.by ctx e.of w).1
        ≡ record w { sent = w.sent ++ (email_for outcome rfc3339 ctx) e ∷ [] }
  unfolding deliver posting
  deliver-sent e w = wrap_send-world (outcome ((email_for outcome rfc3339 ctx) e), _)

  after_admit-sent :
      (e : Event) (due : Bool) (times : Times) (w : Posted)
      → (after_admit (posting outcome rfc3339 ctx) e.by ctx e.of (due, (times, w))).1 ≡ (
        times,
        record w {
          sent = if due then w.sent ++ (email_for outcome rfc3339 ctx) e ∷ [] else w.sent;
        },
      )
  unfolding after_admit
  after_admit-sent e true times w = rw deliver-sent refl
  after_admit-sent e false times w = refl

  alone-due :
      (e : Event) (times : Times) (w : Posted)
      → (alone outcome rfc3339 ctx) e (times, w) ≡ (
        times_after e times,
        record {
          reading = e.at;
          sent =
              if is_due e times then w.sent ++ (email_for outcome rfc3339 ctx) e ∷ [] else w.sent;
        },
      )
  unfolding alone handle
  alone-due e times w =
      ap (λ a. (after_admit (posting outcome rfc3339 ctx) e.by ctx e.of a).1) (admit-due e times w)
      ∙ after_admit-sent e (is_due e times) (times_after e times) (record w { reading = e.at })

  -- The calls made one by one have sent what these have sent or are about to send, in some order.
  record Matches (st : Calls) (seq : Times × Posted) : Type 0 where
    times_same : st.times ≡ seq.0
    emails_same : Perm (st.world.sent ++ map (email_for outcome rfc3339 ctx) st.pending) seq.1.sent

  move-start :
      (e : Event) (st : Calls) (seq : Times × Posted)
      → Matches st seq
      → Matches ((move outcome rfc3339 ctx) (starts e) st) ((alone outcome rfc3339 ctx) e seq)
  unfolding move
  move-start e st (times, w) h =
      rw (admit-due, alone-due, ← h.times_same)
        (elim (Bool-cases (is_due e st.times)) [
          | inl b ↦ rw b (record {
            times_same = refl;
            emails_same =
                rw (map-append, ← append_assoc)
                  (Perm.append_right ((email_for outcome rfc3339 ctx) e ∷ []) h.emails_same);
          })
          | inr b ↦ rw b (record { times_same = refl; emails_same = h.emails_same })
        ])

  send_taken-Matches :
      (o : Option (Event × List Event)) (st : Calls) (seq : Times × Posted)
      → Taken st.pending o
      → Matches st seq
      → Matches ((send_taken outcome rfc3339 ctx) o st) seq
  unfolding send_taken
  send_taken-Matches none st seq t h = h
  send_taken-Matches (some (e, rest)) st seq t h = record {
    times_same = h.times_same;
    emails_same =
        rw (deliver-sent, append_assoc)
          (Perm.trans (Perm.append_left st.world.sent (Perm.map (email_for outcome rfc3339 ctx) t))
            h.emails_same);
  }

  move-send :
      (i : ℕ) (st : Calls) (seq : Times × Posted)
      → Matches st seq
      → Matches ((move outcome rfc3339 ctx) (sends i) st) seq
  unfolding move
  move-send i st seq h =
      send_taken-Matches (take_out i st.pending) st seq (take_out-Taken i st.pending) h

  run_moves-Matches :
      (moves : List Move) (st : Calls) (seq : Times × Posted)
      → Matches st seq
      → Matches
          ((run_moves outcome rfc3339 ctx) moves st)
          ((one_by_one outcome rfc3339 ctx) (events_of moves) seq)
  unfolding run_moves one_by_one
  run_moves-Matches [] st seq h = h
  run_moves-Matches (starts e ∷ moves) st seq h =
      run_moves-Matches moves ((move outcome rfc3339 ctx) (starts e) st)
        ((alone outcome rfc3339 ctx) e seq) (move-start e st seq h)
  run_moves-Matches (sends i ∷ moves) st seq h =
      run_moves-Matches moves ((move outcome rfc3339 ctx) (sends i) st) seq (move-send i st seq h)

  -- Whatever calls of Handle overlap, on whatever clones of a new handler, and in whatever order those
  -- that have let the mutex go come to Send: the times are those of the same calls made one by one,
  -- in the order in which they took the mutex, and the emails that were sent, with those that are
  -- still to be sent, are the emails that these calls send, in some order.
  pub run_moves-one_by_one :
      (moves : List Move) (reading : ℕ)
      → let new : Posted = record { reading = reading; sent = [] } in
        let st =
          (run_moves outcome rfc3339 ctx) moves
            (record { times = []; pending = []; world = new }) in
        let (times, w) = (one_by_one outcome rfc3339 ctx) (events_of moves) ([], new) in
        (st.times ≡ times)
        × Perm (st.world.sent ++ map (email_for outcome rfc3339 ctx) st.pending) w.sent
  run_moves-one_by_one moves reading =
      let h = run_moves-Matches moves _ _ (record { times_same = refl; emails_same = Perm.rfl }) in
      (h.times_same, h.emails_same)
