-- ===== src/Threads/Tests.antt =====
-- Histories of a Thread and runs of `join` at fixed inputs.
use tactility_halo.Base.{
  ℕ, ◌≡◌, ◌+◌, ◌%◌, ◌^◌, ltb, refl, Bool, true, false, List, [], ◌∷◌, some, arith,
}
use tactility_halo.Threads.{
  stopped, idle, Thread, assertion, started_check, fails, can_start, start_begin, start_create,
  start_check, start_test, main_begin, main_return, main_exit, destroy, Surroundings, join_loop,
  join,
}
use tactility_halo.Threads.Actions.{
  Action, starts, creates, checks, destroys, task_runs, task_act, check_act, act, run, lacks_memory,
  Ends,
}
use tactility_halo.Threads.Life.{run_joined}
use tactility_halo.Threads.Joining.{Ends as JoinEnds, Clocks, join_lem}

-- `StackType_t` has one byte.
abbrev fresh : Thread
fresh = record {
  state = stopped;
  task_handle = false;
  callback_result = 0;
  tasks = [];
  starter = idle;
  has_main_function = true;
  stack_size = 4096;
}

-- The task runs before `start` has returned, and the Thread is destroyed while the task ends.
abbrev early : List Action
early =
    starts true
    ∷ creates true
    ∷ task_runs 0
    ∷ checks
    ∷ checks
    ∷ task_runs 7
    ∷ destroys true
    ∷ task_runs 0
    ∷ destroys true
    ∷ []

run_joined_example : Ends 1 (lacks_memory early) (run 1 early fresh)
unfolding can_start
run_joined_example =
    run_joined 1 early fresh (refl, (tt, (tt, (tt, (tt, (tt, (refl, (tt, (refl, tt)))))))))
      ((refl, refl), refl)

-- The task ends between the two reads of the last check of `start`, which then fails.
ended_early :
    run 1
      (starts true ∷ creates true ∷ task_runs 0 ∷ checks ∷ task_runs 7 ∷ task_runs 0 ∷ checks ∷ [])
      fresh
    ≡ fails started_check
unfolding run act task_act check_act can_start start_begin start_create start_check start_test
    main_begin main_return main_exit
ended_early = refl

-- Without `join`, the end of the first task deletes the handle of the second one, so that a later
-- `join` does not wait, and the destruction fails.
restarted :
    run 1
      (starts false
        ∷ creates true
        ∷ task_runs 0
        ∷ checks
        ∷ checks
        ∷ task_runs 7
        ∷ starts false
        ∷ creates true
        ∷ checks
        ∷ checks
        ∷ task_runs 0
        ∷ destroys true
        ∷ [])
      fresh
    ≡ fails assertion
unfolding run act task_act check_act can_start start_begin start_create start_check start_test
    main_begin main_return main_exit destroy
restarted = refl

-- The surroundings are the time; there is a handle up to the tick 5.
abbrev around : Surroundings ℕ
around = record {
  has_handle = λ e. ltb e 5;
  delay_ticks = λ p e. e + p;
  get_ticks = λ e. e % 2 ^ 32;
}

abbrev clocks : Clocks around 0
clocks = record {
  time = λ e. e;
  ticks = λ e. refl;
  waits = λ p e. omega arith;
  in_time = λ p e. omega arith;
}

join_lem_example : (r : ℕ × Bool) × (join around 3 2 0 ≡ some r) × JoinEnds around 0 clocks 3 2 0 r
join_lem_example = join_lem around 0 clocks 3 2 0 (omega arith) (omega arith)

joined_late : join around 3 2 0 ≡ some (4, false)
unfolding join join_loop
joined_late = refl

joined : join around 9 2 0 ≡ some (6, true)
unfolding join join_loop
joined = refl
