-- ===== src/Threads.antt =====
-- TactilityCore/Source/Thread.cpp: the life of a Thread, and `join`. FreeRTOS is the list of the
-- tasks that it runs for the Thread; a task and the thread that calls `start` interleave between
-- their accesses to the shared fields. The flags, and what only passes a call on, are not modelled.
pub mod Actions
pub mod Steps
pub mod Life
pub mod Joining
pub mod Tests
use tactility_halo.Base.{
  ℕ, zero, suc, ◌+◌, ◌-◌, ◌*◌, ◌%◌, ◌^◌, ltb, Bool, true, false, not, ◌||◌, ◌&&◌, List, [], ◌∷◌,
  ◌++◌, Option, none, some, if◌then◌else◌,
}

pub data State : Type 0 where
  stopped running starting : State

-- Where a task is in `mainBody`: in front of the state Running, in the main function, or behind the
-- state Stopped.
pub data TaskPhase : Type 0 where
  created in_main exiting : TaskPhase

-- Where a call of `start` is: in front of `xTaskCreate`, in front of its last check, or between the
-- two reads of that.
pub data StartPhase : Type 0 where
  idle creating checking testing : StartPhase

pub record Thread : Type 0 where
  pub state : State
  -- whether `taskHandle` is not null
  pub task_handle : Bool
  pub callback_result : ℕ
  pub tasks : List TaskPhase
  pub starter : StartPhase
  -- whether there is a `mainFunction`
  pub has_main_function : Bool
  pub stack_size : ℕ

-- An assertion, `tt_check(result == pdPASS)`, and the last check of `start`.
pub data Check : Type 0 where
  assertion creation_check started_check : Check

pub data Outcome : Type 0 where
  passes : Thread → Outcome
  fails : Check → Outcome

abbrev pub is_stopped : State → Bool
is_stopped stopped = true
is_stopped _ = false

abbrev pub is_running : State → Bool
is_running running = true
is_running _ = false

abbrev pub is_starting : State → Bool
is_starting starting = true
is_starting _ = false

-- The assertions of `start` on what it was given; `word_size` is the size of `StackType_t`.
unfoldable pub can_start : (word_size : ℕ) → Bool → ℕ → Bool
can_start word_size has_main_function stack_size =
    has_main_function && (ltb 0 stack_size && ltb stack_size (65535 * word_size))

-- `start` up to the state Starting.
unfoldable pub start_begin : (word_size : ℕ) → Thread → Outcome
start_begin word_size t =
    if is_stopped t.state && can_start word_size t.has_main_function t.stack_size
    then passes (record t { state = starting; starter = creating })
    else fails assertion

-- `xTaskCreate`, and the check of its result. It sets the handle before the task runs.
unfoldable pub start_create : Bool → Thread → Outcome
start_create true t =
    passes (record t { task_handle = true; tasks = t.tasks ++ created ∷ []; starter = checking })
start_create false t = fails creation_check

-- The last check of `start` reads the state.
unfoldable pub start_check : Thread → Outcome
start_check t = passes (record t { starter = if is_stopped t.state then idle else testing })

-- Unless the Thread has stopped, it then reads the handle.
unfoldable pub start_test : Thread → Outcome
start_test t = if t.task_handle then passes (record t { starter = idle }) else fails started_check

-- `mainBody` up to the call of the main function.
unfoldable pub main_begin : List TaskPhase → Thread → Outcome
main_begin rest t =
    if is_starting t.state
    then passes (record t { state = running; tasks = in_main ∷ rest })
    else fails assertion

-- The return of the main function, up to the state Stopped.
unfoldable pub main_return : ℕ → List TaskPhase → Thread → Outcome
main_return result rest t =
    if is_running t.state
    then passes (record t { callback_result = result; state = stopped; tasks = exiting ∷ rest })
    else fails assertion

-- The end of the task.
unfoldable pub main_exit : List TaskPhase → Thread → Thread
main_exit rest t = record t { task_handle = false; tasks = rest }

unfoldable pub destroy : Thread → Outcome
destroy t = if is_stopped t.state && not t.task_handle then passes t else fails assertion

-- The result of the main function, for a Thread that is stopped; `none` is a failed assertion.
unfoldable pub get_return_code : Thread → Option ℕ
get_return_code t = if is_stopped t.state then some t.callback_result else none

-- What `join` sees: the handle of the task, the clock, and the pause between two looks.
pub record Surroundings (E : Type 0) : Type 0 where
  pub has_handle : E → Bool
  pub delay_ticks : ℕ → E → E
  pub get_ticks : E → ℕ

module _ {E : Type 0} (around : Surroundings E) where
  -- The loop of `join` on fuel; `none` means that the fuel ran out.
  unfoldable pub join_loop : ℕ → (timeout poll_interval start_ticks : ℕ) → E → Option (E × Bool)
  join_loop zero timeout poll_interval start_ticks e = none
  join_loop (suc fuel) timeout poll_interval start_ticks e =
      let e' = around.delay_ticks poll_interval e in
      let next = join_loop fuel timeout poll_interval start_ticks e' in
      if around.has_handle e
      then (if ltb timeout ((around.get_ticks e' + 2 ^ 32 - start_ticks) % 2 ^ 32)
          then some (e', false)
          else next)
      else some (e, true)

  -- Two rounds more than the timeout has ticks.
  unfoldable pub join : (timeout poll_interval : ℕ) → E → Option (E × Bool)
  join timeout poll_interval e =
      join_loop (suc (suc timeout)) timeout poll_interval (around.get_ticks e) e
