-- ===== src/Tests/Turns.antt =====
-- Two processes that share a log through the lock file.
use gklog.Base.{ℕ, suc, List, [], ◌∷◌, ◌++◌, Option, none, some, true, ◌≡◌, refl, length}
use gklog.Text.{Bytes, codes}
use gklog.LockedWriter.{found, FileOps, new_locked_writer, close}
use gklog.LockedWriter.Turns.{
  locked, Processes, Event, calls, goes_on, closes, writes, shuts, step, advance, run, made,
  in_turn,
}
use gklog.LockedWriter.Turns.Lock.{IsExclusive}
use gklog.LockedWriter.Turns.Serial.{settled, run-in_turn}
use gklog.LockedWriter.Turns.Alone.{run_alone}
use gklog.LockedWriter.Turns.Apart.{IsApart}

-- The log with the process that has its lock, and the number of Closes.
record Shared : Type 0 where
  log : Bytes
  closings : ℕ
  holder : Option ℕ

abbrev shared : ℕ → FileOps Shared
shared i = record {
  lock = λ d. (none, record d { holder = some i });
  unlock = λ d. record d { holder = none };
  stat = λ d. (found (record { file_id = 1; size = length d.log; mod_time = length d.log }), d);
  write = λ p d. ((length p, none), record d { log = d.log ++ p });
  close = λ d. (none, record d { closings = suc d.closings });
}

abbrev holder_of : Shared → Option ℕ
holder_of d = d.holder

shared-IsExclusive : IsExclusive shared holder_of
shared-IsExclusive = record {
  lock-taken = λ i d h e. refl;
  lock-failed = λ i d e h q. cc;
  unlock-holder = λ i d. refl;
  stat-holder = λ i d. refl;
  write-holder = λ i p d. refl;
  close-holder = λ i d. refl;
}

shared-IsApart : IsApart shared
shared-IsApart = record {
  stat-apart = λ i j d e. (refl, refl);
  write-apart = λ i j p d e. (refl, refl);
  close-apart = λ i j d e. (refl, refl);
  unlock-apart = λ i j d e. (refl, refl);
}

abbrev fresh_processes : Processes Shared
fresh_processes = record {
  writers = λ i. new_locked_writer true;
  stages = λ i. none;
  world = record { log = []; closings = 0; holder = none };
  returned = [];
  closed = [];
}

-- The second process calls Write while the first one has the lock, and calls again behind it; the
-- first one calls Close while the second is in its Write, and the second at the same time in vain.
abbrev contended : List Event
contended =
    calls 0 (codes "ab")
    ∷ goes_on 0
    ∷ calls 1 (codes "c")
    ∷ goes_on 0
    ∷ goes_on 1
    ∷ goes_on 0
    ∷ goes_on 0
    ∷ calls 1 (codes "d")
    ∷ goes_on 1
    ∷ closes 0
    ∷ closes 1
    ∷ goes_on 1
    ∷ goes_on 1
    ∷ goes_on 1
    ∷ []

contended_log : (run shared holder_of contended fresh_processes).world.log ≡ codes "abd"
unfolding run step advance new_locked_writer close
contended_log = refl

run-in_turn_example :
    settled (run shared holder_of contended fresh_processes)
    ≡ in_turn shared (made shared holder_of contended fresh_processes) (settled fresh_processes)
unfolding run step advance new_locked_writer close
run-in_turn_example =
    run-in_turn shared holder_of shared-IsExclusive shared-IsApart contended fresh_processes
      (λ j. refl) refl refl

contended_made :
    made shared holder_of contended fresh_processes
    ≡ writes 0 (codes "ab") ∷ writes 1 (codes "d") ∷ shuts 0 ∷ []
unfolding made step advance new_locked_writer close
contended_made = refl

run_alone_example : ◌≡◌ {A = ℕ} 0 0
unfolding run step advance new_locked_writer close
run_alone_example =
    run_alone shared holder_of shared-IsExclusive (calls 0 (codes "ab") ∷ calls 1 (codes "c") ∷ [])
      fresh_processes 0 0 (locked (codes "ab")) (locked (codes "ab")) (λ j. refl) refl refl
