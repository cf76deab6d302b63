-- ===== src/Threads/Actions.antt =====
-- What happens to a Thread and its tasks, and the states that fit together.
use tactility_halo.Base.{
  ℕ, ◌≡◌, ◌⊎◌, Bool, true, false, not, ◌&&◌, ◌||◌, List, [], ◌∷◌, if◌then◌else◌,
}
use tactility_halo.Threads.{
  State, stopped, running, starting, TaskPhase, created, in_main, exiting, StartPhase, idle,
  creating, checking, testing, Thread, creation_check, started_check, Outcome, passes, fails,
  can_start, start_begin, start_create, start_check, start_test, main_begin, main_return, main_exit,
  destroy,
}

pub data Action : Type 0 where
  -- One thread owns the Thread: it starts it, or destroys it; the flag is whether it joins it first.
  starts : Bool → Action
  -- whether the task can be created
  creates : Bool → Action
  checks : Action
  destroys : Bool → Action
  -- The first task goes on; the number is what its main function returns.
  task_runs : ℕ → Action

-- A `join` waits until there is no handle.
abbrev pub may_pass : Bool → Thread → Bool
may_pass joins t = not (joins && t.task_handle)

unfoldable pub task_act : ℕ → List TaskPhase → Thread → Outcome
task_act result [] t = passes t
task_act result (created ∷ rest) t = main_begin rest t
task_act result (in_main ∷ rest) t = main_return result rest t
task_act result (exiting ∷ rest) t = passes (main_exit rest t)

-- A read of the last check of `start`.
unfoldable pub check_act : StartPhase → Thread → Outcome
check_act checking t = start_check t
check_act testing t = start_test t
check_act starter t = passes t

-- What is not possible changes nothing.
unfoldable pub act : (word_size : ℕ) → Action → StartPhase → Thread → Outcome
act w (starts joins) idle t = if may_pass joins t then start_begin w t else passes t
act w (creates succeeds) creating t = start_create succeeds t
act w checks starter t = check_act starter t
act w (destroys joins) idle t = if may_pass joins t then destroy t else passes t
act w (task_runs result) starter t = task_act result t.tasks t
act w action starter t = passes t

unfoldable pub run : (word_size : ℕ) → List Action → Thread → Outcome
run w [] t = passes t
run w (action ∷ rest) t = elim (act w action t.starter t) [
  | passes t' ↦ run w rest t'
  | fails check ↦ fails check
]

-- An action of the owner joins first.
abbrev pub Joined : Action → Type 0
Joined (starts joins) = joins ≡ true
Joined (destroys joins) = joins ≡ true
Joined action = Unit

abbrev pub Joins : List Action → Type 0
Joins [] = Unit
Joins (action ∷ rest) = Joined action × Joins rest

abbrev pub no_memory : Action → Bool
no_memory (creates succeeds) = not succeeds
no_memory _ = false

-- Whether a task cannot be created.
abbrev pub lacks_memory : List Action → Bool
lacks_memory [] = false
lacks_memory (action ∷ rest) = no_memory action || lacks_memory rest

-- There is one task at most, and the fields tell where it is.
abbrev pub Matches : List TaskPhase → StartPhase → State → Bool → Type 0
Matches [] creating state handle = (state ≡ starting) × (handle ≡ false)
Matches [] starter state handle = (state ≡ stopped) × (handle ≡ false)
Matches (phase ∷ []) creating state handle = ⊥
Matches (created ∷ []) starter state handle = (state ≡ starting) × (handle ≡ true)
Matches (in_main ∷ []) starter state handle = (state ≡ running) × (handle ≡ true)
Matches (exiting ∷ []) starter state handle = (state ≡ stopped) × (handle ≡ true)
Matches (first ∷ second ∷ rest) starter state handle = ⊥

abbrev pub IsValid : (word_size : ℕ) → Thread → Type 0
IsValid w t =
    Matches t.tasks t.starter t.state t.task_handle
    × (can_start w t.has_main_function t.stack_size ≡ true)

-- The outcome is a valid Thread, or one of the two checks fails that are no assertions.
abbrev pub Ends : (word_size : ℕ) → Bool → Outcome → Type 0
Ends w lacking o =
    ((t' : Thread) × (o ≡ passes t') × IsValid w t')
    ⊎ ((lacking ≡ true) × (o ≡ fails creation_check))
    ⊎ (o ≡ fails started_check)
