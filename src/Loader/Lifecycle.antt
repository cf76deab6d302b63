-- ===== src/Loader/Lifecycle.antt =====
-- `onCreate` and `onDestroy` in the order in which the apps see them.
use tactility_halo.Base.{
  ℕ, ◌≡◌, ◌∙◌, refl, ap, subst, inl, inr, if◌then◌else◌, List, [], ◌∷◌, ◌++◌, Option, none, some,
  arith, some-injective, ◌==◌, ==_self, Bool-cases,
}
use tactility_halo.Bundle.{Bundle}
use tactility_halo.Apps.{AppManifest, AppInstance, AppManifestMap, AppResult, ResultHolder}
use tactility_halo.Loader.{
  LoaderService, Effect, publish, on_create, on_destroy, on_result, hide_previous, start_instance,
  transition_app_to_state, resume, deliver, stop_instance, take_launch_id, dispatch_start,
  dispatch_stop,
}
use tactility_halo.Loader.Runs.{Action, set_result_of, run}
use tactility_halo.Loader.Cases.{
  Dispatched, idle, dropped, started_app, stopped_app, Step, id_taken, start_called, current_read,
  stop_called, result_set, dispatched, run-nil, run-cons,
}

-- The launch ids of the apps that were created and not yet destroyed, the last one first. A
-- destruction must be that of the last one.
pub living : List Effect → List ℕ → Option (List ℕ)
living [] open_ids = some open_ids
living (on_create l ∷ effects) open_ids = living effects (l ∷ open_ids)
living (on_destroy l ∷ effects) [] = none
living (on_destroy l ∷ effects) (k ∷ open_ids) =
    let rest = living effects open_ids in if l == k then rest else none
living (publish event ∷ effects) open_ids = living effects open_ids
living (on_result to from result result_data ∷ effects) open_ids = living effects open_ids

abbrev pub ids : List AppInstance → List ℕ
ids [] = []
ids (app ∷ rest) = app.launch_id ∷ ids rest

living-append :
    (t u : List Effect) (st st' : List ℕ)
    → living t st ≡ some st'
    → living (t ++ u) st ≡ living u st'
unfolding living
living-append [] u st st' e = ap (living u) (some-injective st st' e)
living-append (on_create l ∷ t) u st st' e = living-append t u (l ∷ st) st' e
living-append (on_destroy l ∷ t) u [] st' e = absurd (ground arith)
living-append (on_destroy l ∷ t) u (k ∷ st) st' e = elim (Bool-cases (l == k)) [
  | inl same ↦ rw same (living-append t u st st' (ground arith))
  | inr apart ↦ absurd (ground arith)
]
living-append (publish event ∷ t) u st st' e = living-append t u st st' e
living-append (on_result to from r b ∷ t) u st st' e = living-append t u st st' e

living-start_instance :
    (s : LoaderService) (m : AppManifest) (l : ℕ) (p : Option Bundle) (st : List AppInstance)
    → s.app_stack ≡ st
    → living (start_instance s m l p).1 (ids st) ≡ some (ids (start_instance s m l p).0.app_stack)
unfolding living start_instance hide_previous transition_app_to_state
living-start_instance s m l p [] is = rw (is, hide_previous)
living-start_instance s m l p (app ∷ rest) is = rw (is, hide_previous)

living-deliver :
    (rest : List AppInstance) (l : ℕ) (h : ResultHolder) (st : List ℕ)
    → living (deliver rest l h) st ≡ some st
unfolding living deliver
living-deliver [] l h st = refl
living-deliver (app ∷ rest) l none st = refl
living-deliver (app ∷ rest) l (some (r, b)) st = refl

living-stop_instance :
    (s : LoaderService) (app : AppInstance) (rest : List AppInstance)
    → living (stop_instance s app rest).1 (ids (app ∷ rest))
      ≡ some (ids (stop_instance s app rest).0.app_stack)
unfolding living stop_instance resume transition_app_to_state
living-stop_instance s app [] =
    rw (==_self app.launch_id) (living-deliver [] app.launch_id app.result_holder [])
living-stop_instance s app (below ∷ rest) =
    rw (==_self app.launch_id)
      (living-deliver (below ∷ rest) app.launch_id app.result_holder (ids (below ∷ rest)))

set_result_of-ids :
    (l : ℕ) (r : AppResult) (b : Option Bundle) (st : List AppInstance)
    → ids st ≡ ids (set_result_of l r b st)
unfolding set_result_of
set_result_of-ids l r b [] = refl
set_result_of-ids l r b (app ∷ rest) = elim (Bool-cases (app.launch_id == l)) [
  | inl same ↦ rw same (ap (◌∷◌ app.launch_id) (set_result_of-ids l r b rest))
  | inr apart ↦ rw apart (ap (◌∷◌ app.launch_id) (set_result_of-ids l r b rest))
]

Dispatched-living :
    (apps : AppManifestMap) (s : LoaderService) (end : LoaderService × List Effect)
    → Dispatched apps s end
    → living end.1 (ids s.app_stack) ≡ some (ids end.0.app_stack)
Dispatched-living apps s end idle = unfold living in refl
Dispatched-living apps s end (dropped message q is) = unfold living in refl
Dispatched-living apps s end (started_app id m l p q is known) =
    living-start_instance (record s { queue = q }) m l p s.app_stack refl
Dispatched-living apps s end (stopped_app id app rest q is on_top free) =
    ap (λ x. living (stop_instance (record s { queue = q }) app rest).1 (ids x)) on_top
    ∙ living-stop_instance (record s { queue = q }) app rest

Step-living :
    (apps : AppManifestMap) (s : LoaderService) (a : Action) (end : LoaderService × List Effect)
    → Step apps s a end
    → living end.1 (ids s.app_stack) ≡ some (ids end.0.app_stack)
Step-living apps s a end id_taken = unfold living in unfold take_launch_id in refl
Step-living apps s a end (start_called id l p) = unfold living in unfold dispatch_start in refl
Step-living apps s a end current_read = unfold living in refl
Step-living apps s a end (stop_called id) = unfold living in unfold dispatch_stop in refl
Step-living apps s a end (result_set l r b) =
    unfold living in ap some (set_result_of-ids l r b s.app_stack)
Step-living apps s a end (dispatched locks end' d) = Dispatched-living apps s end d

-- In every history the calls of `onCreate` and `onDestroy` are well bracketed: an app is destroyed
-- only after it was created, at most once, and only when every app created after it has been
-- destroyed; the apps that were created and not destroyed are those on the stack, in its order.
pub run-living :
    (apps : AppManifestMap) (actions : List Action) (s : LoaderService)
    (end : LoaderService × List Effect)
    → run apps s actions ≡ some end
    → living end.1 (ids s.app_stack) ≡ some (ids end.0.app_stack)
run-living apps [] s end e =
    subst (λ x. living x.1 (ids s.app_stack) ≡ some (ids x.0.app_stack)) (run-nil apps s end e)
      (unfold living in refl)
run-living apps (a ∷ actions) s end e =
    let (middle, last, step, rest, is) = run-cons apps s a actions end e in
    subst (λ x. living x.1 (ids s.app_stack) ≡ some (ids x.0.app_stack)) is
      (living-append middle.1 last.1 (ids s.app_stack) (ids middle.0.app_stack)
          (Step-living apps s a middle step)
        ∙ run-living apps actions middle.0 last rest)
