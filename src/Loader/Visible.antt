-- ===== src/Loader/Visible.antt =====
-- Which app of the Loader's stack is visible, through a history of events.
use tactility_halo.Base.{◌≡◌, refl, subst, List, [], ◌∷◌, some}
use tactility_halo.Apps.{AppManifestMap}
use tactility_halo.Loader.{
  LoaderService, Effect, start_instance, stop_instance, take_launch_id, dispatch_start,
  dispatch_stop,
}
use tactility_halo.Loader.Runs.{Action, run}
use tactility_halo.Loader.Cases.{
  Dispatched, idle, dropped, started_app, stopped_app, Step, id_taken, start_called, current_read,
  stop_called, result_set, dispatched, run-nil, run-cons,
}
use tactility_halo.Loader.Stack.{IsShown, hide_previous-All, resume-IsShown, set_result_of-IsShown}

Dispatched-IsShown :
    (apps : AppManifestMap) (s : LoaderService) (end : LoaderService × List Effect)
    → Dispatched apps s end
    → IsShown s.app_stack
    → IsShown end.0.app_stack
unfolding start_instance stop_instance
Dispatched-IsShown apps s end idle v = v
Dispatched-IsShown apps s end (dropped message q is) v = v
Dispatched-IsShown apps s end (started_app id m l p q is known) v =
    (refl, hide_previous-All s.app_stack v)
Dispatched-IsShown apps s end (stopped_app id app rest q is on_top free) v =
    resume-IsShown rest (subst IsShown on_top v).1

pub Step-IsShown :
    (apps : AppManifestMap) (s : LoaderService) (a : Action) (end : LoaderService × List Effect)
    → Step apps s a end
    → IsShown s.app_stack
    → IsShown end.0.app_stack
unfolding take_launch_id dispatch_start dispatch_stop
Step-IsShown apps s a end id_taken v = v
Step-IsShown apps s a end (start_called id l p) v = v
Step-IsShown apps s a end current_read v = v
Step-IsShown apps s a end (stop_called id) v = v
Step-IsShown apps s a end (result_set l r b) v = set_result_of-IsShown l r b s.app_stack v
Step-IsShown apps s a end (dispatched locks end' d) v = Dispatched-IsShown apps s end d v

-- Every history keeps that the app on top of the stack is showing and all others are hiding, however
-- the calls of several threads and the rounds of the dispatcher thread interleave.
pub run-IsShown :
    (apps : AppManifestMap) (actions : List Action) (s : LoaderService)
    (end : LoaderService × List Effect)
    → run apps s actions ≡ some end
    → IsShown s.app_stack
    → IsShown end.0.app_stack
run-IsShown apps [] s end e v = subst (λ x. IsShown x.0.app_stack) (run-nil apps s end e) v
run-IsShown apps (a ∷ actions) s end e v =
    let (middle, last, step, rest, is) = run-cons apps s a actions end e in
    subst (λ x. IsShown x.0.app_stack) is
      (run-IsShown apps actions middle.0 last rest (Step-IsShown apps s a middle step v))
