-- ===== src/Threads/Steps.antt =====
-- The steps of a Thread that is joined.
use tactility_halo.Base.{ℕ, ◌≡◌, inl, inr, refl, Bool, true, false, not, List, [], ◌∷◌}
use tactility_halo.Threads.{
  State, stopped, running, starting, TaskPhase, created, in_main, exiting, StartPhase, idle,
  creating, checking, testing, Thread, can_start, start_begin, start_create, start_check,
  start_test, main_begin, main_return, main_exit, destroy,
}
use tactility_halo.Threads.Actions.{
  Action, starts, creates, checks, destroys, task_runs, task_act, check_act, act, Joined, no_memory,
  Matches, Ends,
}

-- A Thread of these fields.
abbrev thread : List TaskPhase → StartPhase → State → Bool → ℕ → Bool → ℕ → Thread
thread ts p s h c m z = record {
  state = s;
  task_handle = h;
  callback_result = c;
  tasks = ts;
  starter = p;
  has_main_function = m;
  stack_size = z;
}

module _ (w c : ℕ) (m : Bool) (z : ℕ) (fits : can_start w m z ≡ true) where
  task_step :
      (lacking : Bool) (result : ℕ) (ts : List TaskPhase) (p : StartPhase) (s : State) (h : Bool)
      → Matches ts p s h
      → Ends w lacking (task_act result ts (thread ts p s h c m z))
  unfolding task_act main_begin main_return main_exit
  task_step l result [] p s h valid = inl (_, refl, (valid, fits))
  task_step l result (created ∷ []) idle s h valid =
      inl (thread (in_main ∷ []) idle running h c m z, rw (valid.0), ((refl, valid.1), fits))
  task_step l result (in_main ∷ []) idle s h valid =
      inl (thread (exiting ∷ []) idle stopped h result m z, rw (valid.0), ((refl, valid.1), fits))
  task_step l result (exiting ∷ []) idle s h valid = inl (_, refl, ((valid.0, refl), fits))
  task_step l result (created ∷ []) checking s h valid =
      inl (thread (in_main ∷ []) checking running h c m z, rw (valid.0), ((refl, valid.1), fits))
  task_step l result (in_main ∷ []) checking s h valid =
      inl
        (thread (exiting ∷ []) checking stopped h result m z, rw (valid.0), ((refl, valid.1), fits))
  task_step l result (exiting ∷ []) checking s h valid = inl (_, refl, ((valid.0, refl), fits))
  task_step l result (created ∷ []) testing s h valid =
      inl (thread (in_main ∷ []) testing running h c m z, rw (valid.0), ((refl, valid.1), fits))
  task_step l result (in_main ∷ []) testing s h valid =
      inl
        (thread (exiting ∷ []) testing stopped h result m z, rw (valid.0), ((refl, valid.1), fits))
  task_step l result (exiting ∷ []) testing s h valid = inl (_, refl, ((valid.0, refl), fits))
  task_step l result (created ∷ []) creating s h valid = elim valid [ ]
  task_step l result (created ∷ (_ ∷ _)) p s h valid = elim valid [ ]
  task_step l result (in_main ∷ []) creating s h valid = elim valid [ ]
  task_step l result (in_main ∷ (_ ∷ _)) p s h valid = elim valid [ ]
  task_step l result (exiting ∷ []) creating s h valid = elim valid [ ]
  task_step l result (exiting ∷ (_ ∷ _)) p s h valid = elim valid [ ]

  check_step :
      (lacking : Bool) (ts : List TaskPhase) (p : StartPhase) (s : State) (h : Bool)
      → Matches ts p s h
      → Ends w lacking (check_act p (thread ts p s h c m z))
  unfolding check_act start_check start_test
  check_step l ts idle s h valid = inl (_, refl, (valid, fits))
  check_step l ts creating s h valid = inl (_, refl, (valid, fits))
  check_step l [] checking s h valid = inl (thread [] idle s h c m z, rw (valid.0), (valid, fits))
  check_step l (exiting ∷ []) checking s h valid =
      inl (thread (exiting ∷ []) idle s h c m z, rw (valid.0), (valid, fits))
  check_step l (created ∷ []) checking s h valid =
      inl (thread (created ∷ []) testing s h c m z, rw (valid.0), (valid, fits))
  check_step l (in_main ∷ []) checking s h valid =
      inl (thread (in_main ∷ []) testing s h c m z, rw (valid.0), (valid, fits))
  check_step l [] testing s h valid = inr (inr (rw (valid.1)))
  check_step l (created ∷ []) testing s h valid =
      inl (thread (created ∷ []) idle s h c m z, rw (valid.1), (valid, fits))
  check_step l (created ∷ (_ ∷ _)) checking s h valid = elim valid [ ]
  check_step l (created ∷ (_ ∷ _)) testing s h valid = elim valid [ ]
  check_step l (in_main ∷ []) testing s h valid =
      inl (thread (in_main ∷ []) idle s h c m z, rw (valid.1), (valid, fits))
  check_step l (in_main ∷ (_ ∷ _)) checking s h valid = elim valid [ ]
  check_step l (in_main ∷ (_ ∷ _)) testing s h valid = elim valid [ ]
  check_step l (exiting ∷ []) testing s h valid =
      inl (thread (exiting ∷ []) idle s h c m z, rw (valid.1), (valid, fits))
  check_step l (exiting ∷ (_ ∷ _)) checking s h valid = elim valid [ ]
  check_step l (exiting ∷ (_ ∷ _)) testing s h valid = elim valid [ ]

  starts_step :
      (lacking : Bool) (ts : List TaskPhase) (s : State) (h : Bool)
      → Matches ts idle s h
      → Ends w lacking (act w (starts true) idle (thread ts idle s h c m z))
  unfolding act start_begin
  starts_step l [] s h valid =
      inl
        (thread [] creating starting h c m z, rw (valid.0, valid.1, fits), ((refl, valid.1), fits))
  starts_step l (created ∷ []) s h valid =
      inl (thread (created ∷ []) idle s h c m z, rw (valid.1), (valid, fits))
  starts_step l (created ∷ (_ ∷ _)) s h valid = elim valid [ ]
  starts_step l (in_main ∷ []) s h valid =
      inl (thread (in_main ∷ []) idle s h c m z, rw (valid.1), (valid, fits))
  starts_step l (in_main ∷ (_ ∷ _)) s h valid = elim valid [ ]
  starts_step l (exiting ∷ []) s h valid =
      inl (thread (exiting ∷ []) idle s h c m z, rw (valid.1), (valid, fits))
  starts_step l (exiting ∷ (_ ∷ _)) s h valid = elim valid [ ]

  destroys_step :
      (lacking : Bool) (ts : List TaskPhase) (s : State) (h : Bool)
      → Matches ts idle s h
      → Ends w lacking (act w (destroys true) idle (thread ts idle s h c m z))
  unfolding act destroy
  destroys_step l [] s h valid =
      inl (thread [] idle s h c m z, rw (valid.0, valid.1), (valid, fits))
  destroys_step l (created ∷ []) s h valid =
      inl (thread (created ∷ []) idle s h c m z, rw (valid.1), (valid, fits))
  destroys_step l (created ∷ (_ ∷ _)) s h valid = elim valid [ ]
  destroys_step l (in_main ∷ []) s h valid =
      inl (thread (in_main ∷ []) idle s h c m z, rw (valid.1), (valid, fits))
  destroys_step l (in_main ∷ (_ ∷ _)) s h valid = elim valid [ ]
  destroys_step l (exiting ∷ []) s h valid =
      inl (thread (exiting ∷ []) idle s h c m z, rw (valid.1), (valid, fits))
  destroys_step l (exiting ∷ (_ ∷ _)) s h valid = elim valid [ ]

  creates_step :
      (succeeds : Bool) (ts : List TaskPhase) (s : State) (h : Bool)
      → Matches ts creating s h
      → Ends w (not succeeds) (act w (creates succeeds) creating (thread ts creating s h c m z))
  unfolding act start_create
  creates_step true [] s h valid = inl (_, refl, ((valid.0, refl), fits))
  creates_step false ts s h valid = inr (inl (refl, refl))
  creates_step true (created ∷ []) s h valid = elim valid [ ]
  creates_step true (created ∷ (_ ∷ _)) s h valid = elim valid [ ]
  creates_step true (in_main ∷ []) s h valid = elim valid [ ]
  creates_step true (in_main ∷ (_ ∷ _)) s h valid = elim valid [ ]
  creates_step true (exiting ∷ []) s h valid = elim valid [ ]
  creates_step true (exiting ∷ (_ ∷ _)) s h valid = elim valid [ ]

  pub action_step :
      (action : Action) (ts : List TaskPhase) (p : StartPhase) (s : State) (h : Bool)
      → Joined action
      → Matches ts p s h
      → Ends w (no_memory action) (act w action p (thread ts p s h c m z))
  unfolding act
  action_step (starts joins) ts idle s h joined valid = rw joined (starts_step false ts s h valid)
  action_step (destroys joins) ts idle s h joined valid =
      rw joined (destroys_step false ts s h valid)
  action_step (creates succeeds) ts creating s h joined valid = creates_step succeeds ts s h valid
  action_step checks ts p s h joined valid = check_step false ts p s h valid
  action_step (task_runs result) ts p s h joined valid = task_step false result ts p s h valid
  action_step (starts joins) ts creating s h joined valid = inl (_, refl, (valid, fits))
  action_step (starts joins) ts checking s h joined valid = inl (_, refl, (valid, fits))
  action_step (starts joins) ts testing s h joined valid = inl (_, refl, (valid, fits))
  action_step (destroys joins) ts creating s h joined valid = inl (_, refl, (valid, fits))
  action_step (destroys joins) ts checking s h joined valid = inl (_, refl, (valid, fits))
  action_step (destroys joins) ts testing s h joined valid = inl (_, refl, (valid, fits))
  action_step (creates succeeds) ts idle s h joined valid = inl (_, refl, (valid, fits))
  action_step (creates succeeds) ts checking s h joined valid = inl (_, refl, (valid, fits))
  action_step (creates succeeds) ts testing s h joined valid = inl (_, refl, (valid, fits))
