-- ===== src/Loader/Root.antt =====
-- The app at the bottom of the stack.
use tactility_halo.Base.{
  ℕ, ◌≡◌, ◌∙◌, refl, ap, sym, inl, inr, false, List, [], ◌∷◌, ◌++◌, Option, none, some, arith,
  some-injective, ◌==◌, Bool-cases, List-cases,
}
use tactility_halo.Bundle.{Bundle}
use tactility_halo.Apps.{AppManifest, AppInstance, AppManifestMap, AppResult}
use tactility_halo.Loader.{
  LoaderService, Effect, hide_previous, start_instance, resume, stop_instance, is_fixed_root,
  is_boot, take_launch_id, dispatch_start, dispatch_stop,
}
use tactility_halo.Loader.Runs.{
  Action, takes_id, starts, reads_current, stops, sets_result, dispatches, act, set_result_of, run,
}
use tactility_halo.Loader.Cases.{
  Dispatched, idle, dropped, started_app, stopped_app, Step, id_taken, start_called, current_read,
  stop_called, result_set, dispatched, act-Step, run_lem, act-reads_current,
}

abbrev pub root : List AppInstance → Option (ℕ × AppManifest)
root [] = none
root (app ∷ []) = some (app.launch_id, app.manifest)
root (app ∷ (below ∷ rest)) = root (below ∷ rest)

start-root :
    (s : LoaderService) (m : AppManifest) (l : ℕ) (p : Option Bundle) (x : ℕ × AppManifest)
    (st : List AppInstance)
    → s.app_stack ≡ st
    → root st ≡ some x
    → root (start_instance s m l p).0.app_stack ≡ some x
unfolding start_instance hide_previous
start-root s m l p x [] is e = absurd (ground arith)
start-root s m l p x (app ∷ []) is e = rw (is, hide_previous) e
start-root s m l p x (app ∷ (below ∷ rest)) is e = rw (is, hide_previous) e

stop-root :
    (s : LoaderService) (app : AppInstance) (x : ℕ × AppManifest) (rest : List AppInstance)
    → root (app ∷ rest) ≡ some x
    → is_boot x.1.type ≡ false
    → is_fixed_root app rest ≡ false
    → root (stop_instance s app rest).0.app_stack ≡ some x
unfolding stop_instance resume is_fixed_root
stop-root s app x [] e fixed free =
    absurd (ground (arith, ap (λ y. is_boot y.1.type) (some-injective _ x e)))
stop-root s app x (below ∷ []) e fixed free = e
stop-root s app x (below ∷ (third ∷ rest)) e fixed free = e

set_result_of-root :
    (l : ℕ) (r : AppResult) (b : Option Bundle) (st : List AppInstance)
    → root (set_result_of l r b st) ≡ root st
unfolding set_result_of
set_result_of-root l r b [] = refl
set_result_of-root l r b (app ∷ []) = elim (Bool-cases (app.launch_id == l)) [
  | inl same ↦ rw same
  | inr apart ↦ rw apart
]
set_result_of-root l r b (app ∷ (below ∷ rest)) = set_result_of-root l r b (below ∷ rest)

Dispatched-root :
    (apps : AppManifestMap) (s : LoaderService) (end : LoaderService × List Effect)
    (x : ℕ × AppManifest)
    → Dispatched apps s end
    → root s.app_stack ≡ some x
    → is_boot x.1.type ≡ false
    → root end.0.app_stack ≡ some x
Dispatched-root apps s end x idle e fixed = e
Dispatched-root apps s end x (dropped message q is) e fixed = e
Dispatched-root apps s end x (started_app id m l p q is known) e fixed =
    start-root (record s { queue = q }) m l p x s.app_stack refl e
Dispatched-root apps s end x (stopped_app id app rest q is on_top free) e fixed =
    stop-root (record s { queue = q }) app x rest (ap root (sym on_top) ∙ e) fixed free

Step-root :
    (apps : AppManifestMap) (s : LoaderService) (a : Action) (end : LoaderService × List Effect)
    (x : ℕ × AppManifest)
    → Step apps s a end
    → root s.app_stack ≡ some x
    → is_boot x.1.type ≡ false
    → root end.0.app_stack ≡ some x
Step-root apps s a end x id_taken e fixed = unfold take_launch_id in e
Step-root apps s a end x (start_called id l p) e fixed = unfold dispatch_start in e
Step-root apps s a end x current_read e fixed = e
Step-root apps s a end x (stop_called id) e fixed = unfold dispatch_stop in e
Step-root apps s a end x (result_set l r b) e fixed = set_result_of-root l r b s.app_stack ∙ e
Step-root apps s a end x (dispatched locks end' d) e fixed = Dispatched-root apps s end x d e fixed

act-defined :
    (apps : AppManifestMap) (s : LoaderService) (a : Action) (x : ℕ × AppManifest)
    → root s.app_stack ≡ some x
    → (end : LoaderService × List Effect) × (act apps s a ≡ some end)
unfolding act
act-defined apps s takes_id x e = (_, refl)
act-defined apps s (starts id l p) x e = (_, refl)
act-defined apps s reads_current x e = elim (List-cases s.app_stack) [
  | inl empty ↦ absurd (ground (arith, e, ap root empty))
  | inr (app, rest, on_top) ↦ ((s, []), unfold act in act-reads_current apps s app rest on_top)
]
act-defined apps s (stops id) x e = (_, refl)
act-defined apps s (sets_result l r b) x e = (_, refl)
act-defined apps s (dispatches locks) x e = (_, refl)

-- Once there is an app at the root that is not of the type Boot, it stays there for ever: every
-- history of calls and messages is defined, so that the current app always exists, and ends with
-- the same app at the root.
pub run-root :
    (apps : AppManifestMap) (actions : List Action) (s : LoaderService) (x : ℕ × AppManifest)
    → root s.app_stack ≡ some x
    → is_boot x.1.type ≡ false
    → (end : LoaderService × List Effect) × (run apps s actions ≡ some end)
      × (root end.0.app_stack ≡ some x)
run-root apps [] s x e fixed = ((s, []), unfold run in refl, e)
run-root apps (a ∷ actions) s x e fixed =
    let (middle, step) = act-defined apps s a x e in
    let (last, rest, stays) =
      run-root apps actions middle.0 x
        (Step-root apps s a middle x (act-Step apps s a middle step) e fixed) fixed in
    ((last.0, middle.1 ++ last.1), run_lem apps s a actions middle last step rest, stays)
