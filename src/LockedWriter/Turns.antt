-- ===== src/LockedWriter/Turns.antt =====
-- handlers.go: Write and Close of lockedWriteCloser in several processes at once. Each process is a
-- number with its own writer; between any two of the four stages of a Write the other processes may
-- run. The lock file is the only thing that keeps them apart: flock's Lock waits while it is taken.
-- A process makes one call at a time, by its mutex. Its Close takes no lock, so it may come between the
-- stages of another process.
pub mod Rest
pub mod Lock
pub mod Apart
pub mod Alone
pub mod Serial
use gklog.Base.{
  ℕ, List, [], ◌∷◌, ◌++◌, Option, none, some, Bool, true, false, ◌==◌, ◌≡◌, if◌then◌else◌,
}
use gklog.Text.{Bytes, codes}
use gklog.Errors.{Error, locked_write_error}
use gklog.LockedWriter.{FileOps, LockedWriter, refresh_if, finish, write, close}

-- Where a process stands in Write: it has the lock; refresh is done; the wrapped writer's Write has
-- returned; only the deferred Unlock is left.
pub data Stage : Type 0 where
  locked : Bytes → Stage
  refreshed : Bytes → Stage
  written : ℕ × Option Error → Stage
  leaving : ℕ × Option Error → Stage

pub data Turn : Type 0 where
  goes : Stage → Turn
  returns : ℕ × Option Error → Turn

abbrev pub after_refresh_stage :
    {W : Type 0} → Bytes → (Option Error × LockedWriter) × W → (Turn × LockedWriter) × W
after_refresh_stage p ((none, lw), w) = ((goes (refreshed p), lw), w)
after_refresh_stage p ((some e, lw), w) = ((goes (leaving (0, some e)), lw), w)

-- One stage of Write.
unfoldable pub advance :
    {W : Type 0} → FileOps W → Stage → LockedWriter → W → (Turn × LockedWriter) × W
unfolding refresh_if finish
advance ops (locked p) lw w = after_refresh_stage p (refresh_if ops lw w)
advance ops (refreshed p) lw w = let (r, w') = ops.write p w in ((goes (written r), lw), w')
advance ops (written r) lw w =
    let ((r', lw'), w') = finish ops lw r w in ((goes (leaving r'), lw'), w')
advance ops (leaving r) lw w = ((returns r, lw), ops.unlock w)

abbrev pub set : {A : Type 0} → ℕ → A → (ℕ → A) → ℕ → A
set i x f j = if j == i then x else f j

-- The processes, with the results of the Writes and of the Closes that have returned.
pub record Processes (W : Type 0) : Type 0 where
  pub writers : ℕ → LockedWriter
  pub stages : ℕ → Option Stage
  pub world : W
  pub returned : List (ℕ × (ℕ × Option Error))
  pub closed : List (ℕ × Option Error)

-- A process calls Write, goes on with it, or calls Close.
pub data Event : Type 0 where
  calls : ℕ → Bytes → Event
  goes_on : ℕ → Event
  closes : ℕ → Event

-- A call that did not have to wait.
pub data Call : Type 0 where
  writes : ℕ → Bytes → Call
  shuts : ℕ → Call

-- A call waits while the process is in a Write, and while the lock is taken.
abbrev pub may_call : Option Stage → Option ℕ → Bool
may_call none none = true
may_call none (some j) = false
may_call (some s) h = false

module _ {W : Type 0} (ops : ℕ → FileOps W) (holder : W → Option ℕ) where
  -- The lock is free, or cannot be taken for an error.
  begin : ℕ → Bytes → Processes W → Option Error × W → Processes W
  begin i p t (none, w) = record t { stages = set i (some (locked p)) t.stages; world = w }
  begin i p t (some e, w) = record t {
    world = w;
    returned = t.returned ++ (i, (0, some (locked_write_error (codes "lock") e))) ∷ [];
  }

  moved : ℕ → Processes W → (Turn × LockedWriter) × W → Processes W
  moved i t ((goes s, lw), w) = record t {
    writers = set i lw t.writers;
    stages = set i (some s) t.stages;
    world = w;
  }
  moved i t ((returns r, lw), w) = record t {
    writers = set i lw t.writers;
    stages = set i none t.stages;
    world = w;
    returned = t.returned ++ (i, r) ∷ [];
  }

  call_if : Bool → ℕ → Bytes → Processes W → Processes W
  unfolding begin
  call_if true i p t = begin i p t ((ops i).lock t.world)
  call_if false i p t = t

  go_on : ℕ → Option Stage → Processes W → Processes W
  unfolding moved
  go_on i none t = t
  go_on i (some s) t = moved i t (advance (ops i) s (t.writers i) t.world)

  close_if : Option Stage → ℕ → Processes W → Processes W
  close_if none i t =
      let (e, w) = close (ops i) (t.writers i) t.world in
      record t { world = w; closed = t.closed ++ (i, e) ∷ [] }
  close_if (some s) i t = t

  unfoldable pub step : Event → Processes W → Processes W
  unfolding call_if go_on close_if
  step (calls i p) t = call_if (may_call (t.stages i) (holder t.world)) i p t
  step (goes_on i) t = go_on i (t.stages i) t
  step (closes i) t = close_if (t.stages i) i t

  unfoldable pub run : List Event → Processes W → Processes W
  run [] t = t
  run (e ∷ events) t = run events (step e t)

  abbrev shut_of : Option Stage → ℕ → List Call
  shut_of none i = shuts i ∷ []
  shut_of (some s) i = []

  -- The calls of a run that did not have to wait: each Write where it took the lock, each Close where
  -- it was made.
  abbrev call_of : Event → Processes W → List Call
  call_of (calls i p) t = if may_call (t.stages i) (holder t.world) then writes i p ∷ [] else []
  call_of (goes_on i) t = []
  call_of (closes i) t = shut_of (t.stages i) i

  unfoldable pub made : List Event → Processes W → List Call
  made [] t = []
  made (e ∷ events) t = call_of e t ++ made events (step e t)

-- The specification: a call is one step.
pub record Settled (W : Type 0) : Type 0 where
  pub writers : ℕ → LockedWriter
  pub world : W
  pub returned : List (ℕ × (ℕ × Option Error))
  pub closed : List (ℕ × Option Error)

abbrev pub returned_with :
    {W : Type 0}
    → ℕ
    → (ℕ → LockedWriter)
    → List (ℕ × (ℕ × Option Error))
    → List (ℕ × Option Error)
    → ((ℕ × Option Error) × LockedWriter) × W
    → Settled W
returned_with i writers returned closed ((r, lw), w) = record {
  writers = set i lw writers;
  world = w;
  returned = returned ++ (i, r) ∷ [];
  closed = closed;
}

module _ {W : Type 0} (ops : ℕ → FileOps W) where
  unfoldable pub call_whole : Call → Settled W → Settled W
  unfolding write
  call_whole (writes i p) x =
      returned_with i x.writers x.returned x.closed (write (ops i) (x.writers i) p x.world)
  call_whole (shuts i) x =
      let (e, w) = close (ops i) (x.writers i) x.world in
      record x { world = w; closed = x.closed ++ (i, e) ∷ [] }

  unfoldable pub in_turn : List Call → Settled W → Settled W
  unfolding call_whole
  in_turn [] x = x
  in_turn (c ∷ cs) x = in_turn cs (call_whole c x)
