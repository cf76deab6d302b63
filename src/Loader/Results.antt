-- ===== src/Loader/Results.antt =====
-- The way of a result from an app that was started to the one below it.
use tactility_halo.Base.{
  ℕ, ◌+◌, ◌%◌, ◌^◌, ◌≤◌, ◌≡◌, refl, ap, sym, String, true, false, not, List, [], ◌∷◌, Option, none,
  some, arith, ◌==◌, ==_self, eq_refl,
}
use tactility_halo.Bundle.{Bundle}
use tactility_halo.Apps.{
  AppManifest, AppInstance, AppManifestMap, AppResult, ResultHolder, showing, hiding, set_state,
  find_app_by_id,
}
use tactility_halo.Loader.{
  LoaderService, Message, start_message, stop_message, is_boot, Effect, publish, on_create,
  on_destroy, on_result, application_started, application_showing, application_hiding,
  application_stopped, hide_previous, start_instance, transition_app_to_state, resume, deliver,
  stop_instance, stop_top, on_start_app_message, on_stop_app_message, is_fixed_root, take_launch_id,
  dispatch_start, dispatch_stop, get_current_app_context, run_message,
}
use tactility_halo.Loader.Runs.{
  takes_id, starts, reads_current, stops, sets_result, dispatches, set_result_of, dispatch_next,
  act, run,
}
use tactility_halo.Loader.Cases.{run_lem, run_done}
use tactility_halo.Loader.Stack.{IsValid, Falls}

set_result_of-fresh :
    (limit l : ℕ) (r : AppResult) (b : Option Bundle) (st : List AppInstance)
    → Falls limit st
    → limit ≤ l
    → set_result_of l r b st ≡ st
unfolding set_result_of
set_result_of-fresh limit l r b [] f h = refl
set_result_of-fresh limit l r b (app ∷ rest) f h =
    let apart : (app.launch_id == l) ≡ false = ground (arith, f.0) in
    rw apart (ap (◌∷◌ app) (set_result_of-fresh app.launch_id l r b rest f.1 (omega (arith, f.0))))

abbrev pub idle_loader : List AppInstance → ℕ → LoaderService
idle_loader st n = record { app_stack = st; next_launch_id = n; queue = [] }

abbrev waiting : List AppInstance → ℕ → Message → LoaderService
waiting st n message = record { app_stack = st; next_launch_id = n; queue = message ∷ [] }

-- The app while it runs, with the result that it holds.
abbrev running : AppManifest → ℕ → Option Bundle → ResultHolder → AppInstance
running m l p holder = record {
  manifest = m;
  state = showing;
  launch_id = l;
  show_statusbar = not (is_boot m.type);
  parameters = p;
  result_holder = holder;
}

module _ (apps : AppManifestMap) (id : String) (m : AppManifest) (p b : Option Bundle)
    (r : AppResult) (parent : AppInstance) (rest : List AppInstance) (n next : ℕ) where
  start_step :
      find_app_by_id apps id ≡ some m
      → act apps (waiting (parent ∷ rest) next (start_message id n p)) (dispatches true)
        ≡ some (
          idle_loader (running m n p none ∷ set_state parent hiding ∷ rest) next,
          on_create n
              ∷ publish application_hiding
              ∷ publish application_showing
              ∷ publish application_started
              ∷ [],
        )
  unfolding act dispatch_next run_message on_start_app_message start_instance hide_previous
      transition_app_to_state
  start_step known = rw (known, on_start_app_message)

  result_step :
      (limit : ℕ)
      → Falls limit (parent ∷ rest)
      → limit ≤ n
      → act apps
          (idle_loader (running m n p none ∷ set_state parent hiding ∷ rest) next)
          (sets_result n r b)
        ≡ some (idle_loader (running m n p (some (r, b)) ∷ set_state parent hiding ∷ rest) next, [])
  unfolding act set_result_of
  result_step limit falls h =
      let other = set_result_of-fresh limit n r b (set_state parent hiding ∷ rest) falls h in
      rw (==_self n)
        (ap (λ st. some (idle_loader (running m n p (some (r, b)) ∷ st) next, [])) other)

  abbrev stop_effects : List Effect
  stop_effects =
      publish application_hiding
      ∷ on_destroy n
      ∷ publish application_showing
      ∷ publish application_stopped
      ∷ on_result parent.launch_id n r b
      ∷ []

  stop_step :
      parent.state ≡ showing
      → act apps
          (waiting
            (running m n p (some (r, b)) ∷ set_state parent hiding ∷ rest)
            next
            (stop_message m.id))
          (dispatches true)
        ≡ some (idle_loader (parent ∷ rest) next, stop_effects)
  unfolding act dispatch_next run_message on_stop_app_message stop_top is_fixed_root stop_instance
      resume deliver transition_app_to_state
  stop_step shown =
      let same = eq_refl m.id in
      rw (same, stop_top)
        (λ i. some (idle_loader (set_state parent (sym shown i) ∷ rest) next, stop_effects))

-- An app starts another one, which sets a result and then is stopped; in between nothing else
-- happens: the stack is again what it was, the new app was created and destroyed once, and the
-- first app gets the result, with the launch id that `startApp` gave to it. The id is registered,
-- and the state before is valid.
pub result_delivered :
    (apps : AppManifestMap) (id : String) (m : AppManifest) (p b : Option Bundle) (r : AppResult)
    (parent : AppInstance) (rest : List AppInstance) (n : ℕ)
    → find_app_by_id apps id ≡ some m
    → IsValid n (idle_loader (parent ∷ rest) n)
    → run apps (idle_loader (parent ∷ rest) n) (
        takes_id
        ∷ starts id n p
        ∷ dispatches true
        ∷ sets_result n r b
        ∷ reads_current
        ∷ stops m.id
        ∷ dispatches true
        ∷ [])
      ≡ some (
        idle_loader (parent ∷ rest) ((n + 1) % 2 ^ 32),
        on_create n
            ∷ publish application_hiding
            ∷ publish application_showing
            ∷ publish application_started
            ∷ publish application_hiding
            ∷ on_destroy n
            ∷ publish application_showing
            ∷ publish application_stopped
            ∷ on_result parent.launch_id n r b
            ∷ [],
      )
unfolding act take_launch_id dispatch_start dispatch_stop get_current_app_context
result_delivered apps id m p b r parent rest n known v =
    let next = (n + 1) % 2 ^ 32 in
    let hidden = set_state parent hiding ∷ rest in
    let s2 = idle_loader (running m n p none ∷ hidden) next in
    let s3 = idle_loader (running m n p (some (r, b)) ∷ hidden) next in
    let s4 = waiting (running m n p (some (r, b)) ∷ hidden) next (stop_message m.id) in
    run_lem apps (idle_loader (parent ∷ rest) n) takes_id _ (idle_loader (parent ∷ rest) next, []) _
      refl
      (run_lem apps (idle_loader (parent ∷ rest) next) (starts id n p) _
        (waiting (parent ∷ rest) next (start_message id n p), []) _ refl
        (run_lem apps (waiting (parent ∷ rest) next (start_message id n p)) (dispatches true) _
          (s2, _) _ (start_step apps id m p b r parent rest n next known)
          (run_lem apps s2 (sets_result n r b) _ (s3, []) _
            (result_step apps id m p b r parent rest n next v.limit v.falls v.rises)
            (run_lem apps s3 reads_current _ (s3, []) _ refl
              (run_lem apps s3 (stops m.id) _ (s4, []) _ refl
                (run_lem apps s4 (dispatches true) [] _ _
                  (stop_step apps id m p b r parent rest n next v.shown.0)
                  (run_done apps (idle_loader (parent ∷ rest) next))))))))
