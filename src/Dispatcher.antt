-- ===== src/Dispatcher.antt =====
-- TactilityCore/Source/Dispatcher.cpp and EventFlag::wait as far as it is used there. The threads
-- interleave: what a thread does between two operations of the mutex or of the event flag is one
-- step. Any number of threads dispatch, one thread consumes.
pub mod Wakeups
pub mod Draining
pub mod Tests
use tactility_halo.Base.{
  ℕ, zero, suc, ◌+◌, ◌-◌, ◌%◌, ◌^◌, Bool, true, false, List, [], ◌∷◌, ◌++◌, Option, none, some,
  if◌then◌else◌,
}

-- Where the consuming thread is. The number is `consumed`, the flag is `processing`.
pub data Phase (C : Type 0) : Type 0 where
  waiting : Phase C
  woken : Phase C
  looping : ℕ → Phase C
  calling : C → Bool → ℕ → Phase C

pub record Dispatcher (C : Type 0) : Type 0 where
  pub queue : List C
  -- `WAIT_FLAG` of the event flag
  pub flag : Bool
  -- the threads in `dispatch` that have unlocked the mutex and have not set the flag
  pub signalling : ℕ
  pub phase : Phase C

module _ {C : Type 0} where
  abbrev pub init : Dispatcher C
  init = record { queue = []; flag = false; signalling = 0; phase = waiting }

  -- `dispatch`, up to the release of the mutex; `locks` is whether the mutex was free in time.
  unfoldable pub dispatch_push : Bool → C → Dispatcher C → Dispatcher C
  dispatch_push false function d = d
  dispatch_push true function d = record d {
    queue = d.queue ++ function ∷ [];
    signalling = d.signalling + 1;
  }

  -- The rest of `dispatch`.
  unfoldable pub dispatch_signal : Dispatcher C → Dispatcher C
  dispatch_signal d = record d { flag = true; signalling = d.signalling - 1 }

  -- The call of `wait`, which clears the flag when it finds it. Without the flag the wait goes on,
  -- or it times out and `consume` returns 0; its thread then calls `consume` again.
  unfoldable pub consume_wait : Dispatcher C → Dispatcher C
  consume_wait d = if d.flag then record d { flag = false; phase = woken } else d

  unfoldable pub consume_clear : Dispatcher C → Dispatcher C
  consume_clear d = record d { flag = false; phase = looping 0 }

  -- One round of the loop up to the release of the mutex; without the lock the round is repeated.
  unfoldable pub consume_take : Bool → ℕ → Dispatcher C → List C → Dispatcher C
  consume_take false consumed d queue = record d { phase = looping consumed }
  consume_take true consumed d [] = record d { phase = waiting }
  consume_take true consumed d (function ∷ rest) = record d {
    queue = rest;
    phase = calling function (elim rest [ [] ↦ false | _ ∷ _ ↦ true ]) ((consumed + 1) % 2 ^ 32);
  }

  -- After the call of the function: the next round, or the return.
  unfoldable pub consume_called : Bool → ℕ → Dispatcher C → Dispatcher C
  consume_called processing consumed d = record d {
    phase = if processing then looping consumed else waiting;
  }
