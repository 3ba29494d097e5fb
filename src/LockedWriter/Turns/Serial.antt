-- ===== src/LockedWriter/Turns/Serial.antt =====
-- Calls of several processes that interleave, compared with calls made one after the other.
use gklog.Base.{
  ℕ, List, [], ◌∷◌, ◌++◌, Option, none, some, false, ◌==◌, ◌≡◌, inl, inr, refl, sym, ap, subst, ◌∙◌,
  ==_iff, Bool-cases, arith,
}
use gklog.Text.{Bytes}
use gklog.Errors.{Error}
use gklog.LockedWriter.{FileOps, LockedWriter, close}
use gklog.LockedWriter.Turns.{
  Stage, locked, Turn, goes, returns, advance, set, Processes, Event, calls, goes_on, closes, begin,
  moved, may_call, call_if, go_on, close_if, step, run, Call, shuts, shut_of, call_of, made,
  Settled, returned_with, call_whole, in_turn,
}
use gklog.LockedWriter.Turns.Rest.{
  set-set, set_same, set_other, set_self, rest, rest_of, rest-advance, begun, write-begun,
}
use gklog.LockedWriter.Turns.Apart.{IsApart, rest-close, close-world}
use gklog.LockedWriter.Turns.Lock.{IsExclusive, Held, advance-Held}

abbrev pub settled : {W : Type 0} → Processes W → Settled W
settled t = record {
  writers = t.writers;
  world = t.world;
  returned = t.returned;
  closed = t.closed;
}

other_way : (i j : ℕ) → (i == j) ≡ false → (j == i) ≡ false
other_way i j e = ground arith

returned_with-set :
    {W : Type 0} (i : ℕ) (lw : LockedWriter) (f : ℕ → LockedWriter)
    (returned : List (ℕ × (ℕ × Option Error))) (closed : List (ℕ × Option Error))
    (y : ((ℕ × Option Error) × LockedWriter) × W)
    → returned_with i (set i lw f) returned closed y ≡ returned_with i f returned closed y
returned_with-set i lw f returned closed ((r, lw'), w) = rw (set-set i lw lw' f) refl

module _ {W : Type 0} (ops : ℕ → FileOps W) (holder : W → Option ℕ) (laws : IsExclusive ops holder)
    (apart : IsApart ops) where
  -- The state of the processes, and the state once the Write under way, if there is one, is done.
  data Matches : Processes W → Settled W → Type 0 where
    quiet :
        (t : Processes W)
        → ((j : ℕ) → t.stages j ≡ none)
        → holder t.world ≡ none
        → Matches t (settled t)
    busy :
        (t : Processes W) (i : ℕ) (s : Stage)
        → t.stages i ≡ some s
        → ((j : ℕ) → (j == i) ≡ false → t.stages j ≡ none)
        → holder t.world ≡ some i
        → Matches t
            (returned_with i t.writers t.returned t.closed (rest (ops i) s (t.writers i) t.world))

  begin-Matches :
      (i : ℕ) (p : Bytes) (t : Processes W) (l : Option Error × W)
      → ((j : ℕ) → t.stages j ≡ none)
      → (l.0 ≡ none → holder l.1 ≡ some i)
      → ((e : Error) → l.0 ≡ some e → holder l.1 ≡ none)
      → Matches
          (begin ops holder i p t l)
          (returned_with i t.writers t.returned t.closed (begun (ops i) p (t.writers i) l))
  unfolding begin
  begin-Matches i p t (none, w) q h k =
      busy _ i (locked p) (set_same i (some (locked p)) t.stages)
        (λ j e. set_other i j (some (locked p)) t.stages e ∙ q j) (h refl)
  begin-Matches i p t (some e, w) q h k = rw (set_self i t.writers) (quiet _ q (k e refl))

  all_idle :
      (i : ℕ) (f : ℕ → Option Stage)
      → ((j : ℕ) → (j == i) ≡ false → f j ≡ none)
      → (j : ℕ) → set i none f j ≡ none
  all_idle i f q j = elim (Bool-cases (j == i)) [
    | inl e ↦ rw e refl
    | inr e ↦ set_other i j none f e ∙ q j e
  ]

  moved-Matches :
      (i : ℕ) (t : Processes W) (v : (Turn × LockedWriter) × W)
      → ((j : ℕ) → (j == i) ≡ false → t.stages j ≡ none)
      → Held holder i v
      → Matches
          (moved ops holder i t v)
          (returned_with i t.writers t.returned t.closed (rest_of (ops i) v))
  unfolding moved
  moved-Matches i t ((goes s, lw), w) q h =
      let m =
        busy (moved ops holder i t ((goes s, lw), w)) i s (set_same i (some s) t.stages)
          (λ j e. set_other i j (some s) t.stages e ∙ q j e) h in
      subst (Matches (moved ops holder i t ((goes s, lw), w)))
        (ap (λ x. returned_with i (set i lw t.writers) t.returned t.closed (rest (ops i) s x w))
            (set_same i lw t.writers)
          ∙ returned_with-set i lw t.writers t.returned t.closed (rest (ops i) s lw w))
        m
  moved-Matches i t ((returns r, lw), w) q h = quiet _ (all_idle i t.stages q) h

  may_call-held : (o : Option Stage) (j : ℕ) → may_call o (some j) ≡ false
  may_call-held none j = refl
  may_call-held (some s) j = refl

  -- What an event adds to the Writes that were made.
  call_if-Matches :
      (i : ℕ) (p : Bytes) (t : Processes W) (x : Settled W)
      → Matches t x
      → Matches
          (call_if ops holder (may_call (t.stages i) (holder t.world)) i p t)
          (in_turn ops (call_of ops holder (calls i p) t) x)
  unfolding call_if in_turn call_whole
  call_if-Matches i p _ _ (quiet t q h) =
      rw (q i, h, write-begun (ops i) (t.writers i) p t.world)
        (begin-Matches i p t ((ops i).lock t.world) q (laws.lock-taken i t.world h)
          (λ e. laws.lock-failed i t.world e h))
  call_if-Matches i p _ _ (busy t j s e q h) =
      rw (h, may_call-held (t.stages i) j) (busy t j s e q h)

  go_on-Matches :
      (i : ℕ) (t : Processes W) (x : Settled W)
      → Matches t x
      → Matches (go_on ops holder i (t.stages i) t) x
  unfolding go_on
  go_on-Matches i _ _ (quiet t q h) = rw (q i) (quiet t q h)
  go_on-Matches i _ _ (busy t j s e q h) = elim (Bool-cases (i == j)) [
    | inl b ↦
        let k : i ≡ j = (==_iff i j).0 b in
        rw (k, e, ← rest-advance (ops j) s (t.writers j) t.world)
          (moved-Matches j t (advance (ops j) s (t.writers j) t.world) q
            (advance-Held ops holder laws j s (t.writers j) t.world h))
    | inr b ↦ rw (q i b) (busy t j s e q h)
  ]

  -- A Close under a Write, put behind it.
  shut_behind :
      (i j : ℕ) (s : Stage) (t : Processes W)
      → (j == i) ≡ false
      → let t' = close_if ops holder none i t in
        returned_with j t'.writers t'.returned t'.closed (rest (ops j) s (t'.writers j) t'.world)
        ≡ call_whole ops
            (shuts i)
            (returned_with j t.writers t.returned t.closed (rest (ops j) s (t.writers j) t.world))
  unfolding close_if call_whole
  shut_behind i j s t b =
      let (r, w) = rest (ops j) s (t.writers j) t.world in
      let (e, e') =
        rest-close ops apart j i b s (t.writers j) (t.writers i) (set j r.1 t.writers i) t.world in
      let before = (close (ops i) (t.writers i) t.world).0 in
      let after = close (ops i) (set j r.1 t.writers i) w in
      ap (λ y. returned_with j t.writers t.returned (t.closed ++ (i, before) ∷ []) y) e
      ∙ ap
          (λ (err : Option Error). record {
            writers = set j r.1 t.writers;
            world = after.1;
            returned = t.returned ++ (j, r.0) ∷ [];
            closed = t.closed ++ (i, err) ∷ [];
          })
          (sym e')

  close_if-Matches :
      (i : ℕ) (t : Processes W) (x : Settled W)
      → Matches t x
      → Matches
          (close_if ops holder (t.stages i) i t)
          (in_turn ops (shut_of ops holder (t.stages i) i) x)
  unfolding close_if in_turn call_whole
  close_if-Matches i _ _ (quiet t q h) = rw (q i) (
      quiet _ q
        (ap holder (close-world (ops i) (t.writers i) t.world) ∙ laws.close-holder i t.world ∙ h))
  close_if-Matches i _ _ (busy t j s e q h) = elim (Bool-cases (i == j)) [
    | inl b ↦ let k : i ≡ j = (==_iff i j).0 b in rw (k, e) (busy t j s e q h)
    | inr b ↦
        let closed = busy (close_if ops holder none i t) j s e q (
          ap holder (close-world (ops i) (t.writers i) t.world)
          ∙ laws.close-holder i t.world
          ∙ h) in
        rw (q i b) (
          subst (Matches (close_if ops holder none i t)) (shut_behind i j s t (other_way i j b))
            closed)
  ]

  step-Matches :
      (e : Event) (t : Processes W) (x : Settled W)
      → Matches t x
      → Matches (step ops holder e t) (in_turn ops (call_of ops holder e t) x)
  unfolding step in_turn
  step-Matches (calls i p) t x m = call_if-Matches i p t x m
  step-Matches (goes_on i) t x m = go_on-Matches i t x m
  step-Matches (closes i) t x m = close_if-Matches i t x m

  in_turn-append :
      (a b : List Call) (x : Settled W) → in_turn ops (a ++ b) x ≡ in_turn ops b (in_turn ops a x)
  unfolding in_turn
  in_turn-append [] b x = refl
  in_turn-append (c ∷ a) b x = in_turn-append a b (call_whole ops c x)

  run-Matches :
      (events : List Event) (t : Processes W) (x : Settled W)
      → Matches t x
      → Matches (run ops holder events t) (in_turn ops (made ops holder events t) x)
  unfolding run made
  run-Matches [] t x m = unfold in_turn in m
  run-Matches (e ∷ events) t x m =
      rw (in_turn-append (call_of ops holder e t) (made ops holder events (step ops holder e t)) x)
        (run-Matches events (step ops holder e t) _ (step-Matches e t x m))

  Matches-settled :
      (t : Processes W) (x : Settled W) → Matches t x → holder t.world ≡ none → settled t ≡ x
  Matches-settled _ _ (quiet t q h) f = refl
  Matches-settled _ _ (busy t i s e q h) f = cc

  -- Processes that begin outside of Write: whatever they do and in whatever order the stages of their
  -- Writes and their Closes interleave, whenever the lock is free their writers, the world and the
  -- results of the calls that have returned are those of the same calls made one after the other, each
  -- as one step: a Write where it took the lock, a Close where it was made.
  pub run-in_turn :
      (events : List Event) (t : Processes W)
      → ((j : ℕ) → t.stages j ≡ none)
      → holder t.world ≡ none
      → holder (run ops holder events t).world ≡ none
      → settled (run ops holder events t) ≡ in_turn ops (made ops holder events t) (settled t)
  run-in_turn events t q h f =
      Matches-settled _ _ (run-Matches events t (settled t) (quiet t q h)) f
