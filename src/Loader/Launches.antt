-- ===== src/Loader/Launches.antt =====
-- The order of the launches on the Loader's stack, through a history of events.
use tactility_halo.Base.{ℕ, suc, ◌≤◌, ◌≡◌, subst, List, [], ◌∷◌, some, arith}
use tactility_halo.Apps.{AppInstance, AppManifestMap}
use tactility_halo.Loader.{
  LoaderService, Effect, Message, start_message, stop_message, hide_previous, start_instance,
  resume, stop_instance, take_launch_id, dispatch_start, dispatch_stop,
}
use tactility_halo.Loader.Runs.{
  Action, takes_id, starts, reads_current, stops, sets_result, dispatches, run,
}
use tactility_halo.Loader.Cases.{
  Dispatched, idle, dropped, started_app, stopped_app, Step, id_taken, start_called, current_read,
  stop_called, result_set, dispatched, run-nil, run-cons,
}
use tactility_halo.Loader.Stack.{
  Falls, Rises, IsValid, Falls-mono, Rises-mono, Rises-start, Rises-stop, hide_previous-Falls,
  resume-Falls, set_result_of-Falls,
}
use tactility_halo.Loader.Visible.{Step-IsShown}

-- The ids are dispatched in their order, from a bound on.
abbrev pub InOrder : ℕ → List Action → Type 0
InOrder bound [] = Unit
InOrder bound (starts id l p ∷ rest) = (bound ≤ l) × InOrder (suc l) rest
InOrder bound (action ∷ rest) = InOrder bound rest

-- The bound behind an action, and behind a history.
abbrev pub bound_behind : ℕ → Action → ℕ
bound_behind bound (starts id l p) = suc l
bound_behind bound action = bound

abbrev pub last_bound : ℕ → List Action → ℕ
last_bound bound [] = bound
last_bound bound (action ∷ rest) = last_bound (bound_behind bound action) rest

abbrev Follows : ℕ → Action → Type 0
Follows bound (starts id l p) = bound ≤ l
Follows bound action = Unit

InOrder-cons :
    (bound : ℕ) (a : Action) (rest : List Action)
    → InOrder bound (a ∷ rest)
    → Follows bound a × InOrder (bound_behind bound a) rest
InOrder-cons bound takes_id rest h = (tt, h)
InOrder-cons bound (starts id l p) rest h = h
InOrder-cons bound reads_current rest h = (tt, h)
InOrder-cons bound (stops id) rest h = (tt, h)
InOrder-cons bound (sets_result l r b) rest h = (tt, h)
InOrder-cons bound (dispatches locks) rest h = (tt, h)

-- The part of `IsValid` that is about the order.
record IsOrdered (bound : ℕ) (st : List AppInstance) (q : List Message) : Type 0 where
  limit : ℕ
  falls : Falls limit st
  rises : Rises limit q bound

Dispatched-IsOrdered :
    (apps : AppManifestMap) (bound : ℕ) (s : LoaderService) (end : LoaderService × List Effect)
    → Dispatched apps s end
    → IsOrdered bound s.app_stack s.queue
    → IsOrdered bound end.0.app_stack end.0.queue
unfolding start_instance stop_instance
Dispatched-IsOrdered apps bound s end idle v = v
Dispatched-IsOrdered apps bound s end (dropped (start_message id l p) q is) v =
    let rises = subst (λ x. Rises v.limit x bound) is v.rises in
    record {
      limit = v.limit;
      falls = v.falls;
      rises = Rises-mono v.limit (suc l) bound q (omega (arith, rises.0)) rises.1;
    }
Dispatched-IsOrdered apps bound s end (dropped (stop_message id) q is) v = record {
  limit = v.limit;
  falls = v.falls;
  rises = subst (λ x. Rises v.limit x bound) is v.rises;
}
Dispatched-IsOrdered apps bound s end (started_app id m l p q is known) v =
    let rises = subst (λ x. Rises v.limit x bound) is v.rises in
    record {
      limit = suc l;
      falls = (
        omega arith,
        Falls-mono v.limit l (hide_previous s.app_stack).0 rises.0
            (hide_previous-Falls v.limit s.app_stack v.falls),
      );
      rises = rises.1;
    }
Dispatched-IsOrdered apps bound s end (stopped_app id app rest q is on_top free) v =
    let falls = subst (Falls v.limit) on_top v.falls in
    record {
      limit = v.limit;
      falls =
          Falls-mono app.launch_id v.limit (resume rest).0 (omega (arith, falls.0))
            (resume-Falls app.launch_id rest falls.1);
      rises = subst (λ x. Rises v.limit x bound) is v.rises;
    }

Step-IsOrdered :
    (apps : AppManifestMap) (bound : ℕ) (s : LoaderService) (a : Action)
    (end : LoaderService × List Effect)
    → Step apps s a end
    → Follows bound a
    → IsOrdered bound s.app_stack s.queue
    → IsOrdered (bound_behind bound a) end.0.app_stack end.0.queue
unfolding take_launch_id dispatch_start dispatch_stop
Step-IsOrdered apps bound s a end id_taken h v = v
Step-IsOrdered apps bound s a end (start_called id l p) h v = record {
  limit = v.limit;
  falls = v.falls;
  rises = Rises-start v.limit bound l s.queue id p h v.rises;
}
Step-IsOrdered apps bound s a end current_read h v = v
Step-IsOrdered apps bound s a end (stop_called id) h v = record {
  limit = v.limit;
  falls = v.falls;
  rises = Rises-stop v.limit bound s.queue id v.rises;
}
Step-IsOrdered apps bound s a end (result_set l r b) h v = record {
  limit = v.limit;
  falls = set_result_of-Falls v.limit l r b s.app_stack v.falls;
  rises = v.rises;
}
Step-IsOrdered apps bound s a end (dispatched locks end' d) h v =
    Dispatched-IsOrdered apps bound s end d v

Step-IsValid :
    (apps : AppManifestMap) (bound : ℕ) (s : LoaderService) (a : Action)
    (end : LoaderService × List Effect)
    → Step apps s a end
    → Follows bound a
    → IsValid bound s
    → IsValid (bound_behind bound a) end.0
Step-IsValid apps bound s a end step h v =
    let ordered =
      Step-IsOrdered apps bound s a end step h
        (record { limit = v.limit; falls = v.falls; rises = v.rises }) in
    record {
      shown = Step-IsShown apps s a end step v.shown;
      limit = ordered.limit;
      falls = ordered.falls;
      rises = ordered.rises;
    }

-- When the messages of `startApp` are dispatched in the order of their launch ids, every history from
-- a valid state leaves a valid one: the app on top of the stack is showing and all others are hiding,
-- each app was launched after the one below it, and the launches that still wait have later ids, in
-- their order.
pub run-IsValid :
    (apps : AppManifestMap) (actions : List Action) (bound : ℕ) (s : LoaderService)
    (end : LoaderService × List Effect)
    → run apps s actions ≡ some end
    → InOrder bound actions
    → IsValid bound s
    → IsValid (last_bound bound actions) end.0
run-IsValid apps [] bound s end e h v = subst (λ x. IsValid bound x.0) (run-nil apps s end e) v
run-IsValid apps (a ∷ actions) bound s end e h v =
    let (middle, last, step, rest, is) = run-cons apps s a actions end e in
    let (follows, later) = InOrder-cons bound a actions h in
    subst (λ x. IsValid (last_bound bound (a ∷ actions)) x.0) is
      (run-IsValid apps actions (bound_behind bound a) middle.0 last rest later
        (Step-IsValid apps bound s a middle step follows v))
