-- ===== src/Threads/Life.antt =====
-- Histories of a Thread that is started and joined.
use tactility_halo.Base.{ℕ, inl, inr, refl, List, [], ◌∷◌, arith}
use tactility_halo.Threads.{Thread}
use tactility_halo.Threads.Actions.{Action, run, Joins, lacks_memory, IsValid, Ends}
use tactility_halo.Threads.Steps.{action_step}

-- When a valid Thread is joined in front of each start and in front of its destruction, no assertion
-- fails, whatever the main functions return and however the task and the owner interleave. The
-- history ends in a valid Thread, whose fields tell where its only task is, unless a task cannot be
-- created, or the last check of `start` fails, which reads the state and then the handle.
pub run_joined :
    (word_size : ℕ) (actions : List Action) (t : Thread)
    → Joins actions
    → IsValid word_size t
    → Ends word_size (lacks_memory actions) (run word_size actions t)
unfolding run
run_joined w [] t joins valid = inl (t, refl, valid)
run_joined w (action ∷ rest) t joins valid =
    elim (action_step w t.callback_result t.has_main_function t.stack_size valid.1 action t.tasks
      t.starter t.state t.task_handle joins.0 valid.0) [
        | inl (t', acted, valid') ↦ elim (run_joined w rest t' joins.1 valid') [
          | inl (last, ran, valid'') ↦ inl (last, rw (run, acted, ran) refl, valid'')
          | inr (inl (lacking, ran)) ↦ inr (inl (ground arith, rw (run, acted, ran) refl))
          | inr (inr ran) ↦ inr (inr (rw (run, acted, ran) refl))
        ]
        | inr (inl (lacking, acted)) ↦ inr (inl (ground arith, rw (run, acted) refl))
        | inr (inr acted) ↦ inr (inr (rw (run, acted) refl))
      ]
