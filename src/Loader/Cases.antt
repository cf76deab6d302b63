-- ===== src/Loader/Cases.antt =====
-- What a handler of the loader does: nothing, or the work behind its guards.
use tactility_halo.Base.{
  ℕ, ◌≡◌, refl, subst, sym, ◌⊎◌, inl, inr, String, Bool, true, false, List, [], ◌∷◌, ◌++◌, Option,
  some, arith, Option-cases, List-cases, some-injective, ◌∙◌, Bool-cases, str_eq,
}
use tactility_halo.Bundle.{Bundle}
use tactility_halo.Apps.{AppResult, AppManifest, AppInstance, AppManifestMap, find_app_by_id}
use tactility_halo.Loader.{
  LoaderService, Effect, Message, start_message, stop_message, start_instance, on_start_app_message,
  is_fixed_root, stop_instance, stop_top, on_stop_app_message, take_launch_id, dispatch_start,
  dispatch_stop, get_current_app_context, run_message,
}
use tactility_halo.Loader.Runs.{
  Action, takes_id, starts, reads_current, stops, sets_result, dispatches, set_result_of,
  dispatch_next, act, run,
}

pub on_start-cases :
    (apps : AppManifestMap) (locks : Bool) (s : LoaderService) (id : String) (l : ℕ)
    (p : Option Bundle)
    → (on_start_app_message apps locks s id l p ≡ (s, []))
      ⊎ ((m : AppManifest) × (find_app_by_id apps id ≡ some m)
          × (on_start_app_message apps locks s id l p ≡ start_instance s m l p))
unfolding on_start_app_message
on_start-cases apps locks s id l p = elim (Option-cases (find_app_by_id apps id)) [
  | inl unknown ↦ inl (ground (arith, unknown))
  | inr (m, known) ↦ elim (Bool-cases locks) [
    | inl free ↦ inr (m, known, ground (arith, known, free))
    | inr taken ↦ inl (ground (arith, known, taken))
  ]
]

-- The guards of the stop message: the state is unchanged, or the top was stopped.
pub stop_top-cases :
    (s : LoaderService) (id : String) (st : List AppInstance)
    → (stop_top s id st ≡ (s, []))
      ⊎ ((app : AppInstance) × (rest : List AppInstance) × (st ≡ app ∷ rest)
          × (is_fixed_root app rest ≡ false)
          × (stop_top s id st ≡ stop_instance s app rest))
unfolding stop_top
stop_top-cases s id [] = inl refl
stop_top-cases s id (app ∷ rest) = elim (Bool-cases (str_eq app.manifest.id id)) [
  | inr other ↦ inl (ground arith)
  | inl same ↦ elim (Bool-cases (is_fixed_root app rest)) [
    | inl root ↦ inl (ground arith)
    | inr free ↦ inr (app, rest, refl, free, ground arith)
  ]
]

on_stop-cases :
    (locks : Bool) (s : LoaderService) (id : String)
    → (on_stop_app_message locks s id ≡ (s, []))
      ⊎ ((app : AppInstance) × (rest : List AppInstance) × (s.app_stack ≡ app ∷ rest)
          × (is_fixed_root app rest ≡ false)
          × (on_stop_app_message locks s id ≡ stop_instance s app rest))
unfolding on_stop_app_message
on_stop-cases true s id = stop_top-cases s id s.app_stack
on_stop-cases false s id = inl refl

-- A step of the dispatcher thread.
pub data Dispatched (apps : AppManifestMap) (s : LoaderService)
    : LoaderService × List Effect → Type 0 where
  idle : Dispatched apps s (s, [])
  dropped :
      (message : Message) (queue : List Message)
      → s.queue ≡ message ∷ queue
      → Dispatched apps s (record s { queue = queue }, [])
  started_app :
      (id : String) (m : AppManifest) (l : ℕ) (p : Option Bundle) (queue : List Message)
      → s.queue ≡ start_message id l p ∷ queue
      → find_app_by_id apps id ≡ some m
      → Dispatched apps s (start_instance (record s { queue = queue }) m l p)
  stopped_app :
      (id : String) (app : AppInstance) (rest : List AppInstance) (queue : List Message)
      → s.queue ≡ stop_message id ∷ queue
      → s.app_stack ≡ app ∷ rest
      → is_fixed_root app rest ≡ false
      → Dispatched apps s (stop_instance (record s { queue = queue }) app rest)

pub dispatch_next-cases :
    (apps : AppManifestMap) (locks : Bool) (s : LoaderService) (q : List Message)
    → s.queue ≡ q
    → Dispatched apps s (dispatch_next apps locks s q)
unfolding dispatch_next run_message
dispatch_next-cases apps locks s [] is = idle
dispatch_next-cases apps locks s (start_message id l p ∷ q) is =
    elim (on_start-cases apps locks (record s { queue = q }) id l p) [
      | inl same ↦ subst (Dispatched apps s) (sym same) (dropped (start_message id l p) q is)
      | inr (m, known, start) ↦
          subst (Dispatched apps s) (sym start) (started_app id m l p q is known)
    ]
dispatch_next-cases apps locks s (stop_message id ∷ q) is =
    elim (on_stop-cases locks (record s { queue = q }) id) [
      | inl same ↦ subst (Dispatched apps s) (sym same) (dropped (stop_message id) q is)
      | inr (app, rest, on_top, free, stop) ↦
          subst (Dispatched apps s) (sym stop) (stopped_app id app rest q is on_top free)
    ]

-- A step of a history: what the loader did on an action, and the state that it left.
pub data Step (apps : AppManifestMap) (s : LoaderService)
    : Action → LoaderService × List Effect → Type 0 where
  id_taken : Step apps s takes_id ((take_launch_id s).0, [])
  start_called :
      (id : String) (l : ℕ) (p : Option Bundle)
      → Step apps s (starts id l p) (dispatch_start id l p s, [])
  current_read : Step apps s reads_current (s, [])
  stop_called : (id : String) → Step apps s (stops id) (dispatch_stop id s, [])
  result_set :
      (l : ℕ) (r : AppResult) (b : Option Bundle)
      → Step apps s
          (sets_result l r b)
          (record s { app_stack = set_result_of l r b s.app_stack }, [])
  dispatched :
      (locks : Bool) (end : LoaderService × List Effect)
      → Dispatched apps s end
      → Step apps s (dispatches locks) end

pub act-reads_current :
    (apps : AppManifestMap) (s : LoaderService) (app : AppInstance) (rest : List AppInstance)
    → s.app_stack ≡ app ∷ rest
    → act apps s reads_current ≡ some (s, [])
unfolding act get_current_app_context
act-reads_current apps s app rest on_top = ground (arith, on_top)

pub act-Step :
    (apps : AppManifestMap) (s : LoaderService) (a : Action) (end : LoaderService × List Effect)
    → act apps s a ≡ some end
    → Step apps s a end
unfolding act get_current_app_context
act-Step apps s takes_id end e = subst (Step apps s takes_id) (some-injective _ end e) id_taken
act-Step apps s (starts id l p) end e =
    subst (Step apps s (starts id l p)) (some-injective _ end e) (start_called id l p)
act-Step apps s reads_current end e = elim (List-cases s.app_stack) [
  | inl empty ↦ absurd (ground (arith, e, empty))
  | inr (app, rest, on_top) ↦
      subst (Step apps s reads_current) (some-injective (s, []) end (ground (arith, on_top, e)))
        current_read
]
act-Step apps s (stops id) end e =
    subst (Step apps s (stops id)) (some-injective _ end e) (stop_called id)
act-Step apps s (sets_result l r b) end e =
    subst (Step apps s (sets_result l r b)) (some-injective _ end e) (result_set l r b)
act-Step apps s (dispatches locks) end e =
    subst (Step apps s (dispatches locks)) (some-injective _ end e) (
      dispatched locks (dispatch_next apps locks s s.queue)
        (dispatch_next-cases apps locks s s.queue refl))

pub run_done : (apps : AppManifestMap) (s : LoaderService) → run apps s [] ≡ some (s, [])
unfolding run
run_done apps s = refl

pub run-nil :
    (apps : AppManifestMap) (s : LoaderService) (end : LoaderService × List Effect)
    → run apps s [] ≡ some end
    → (s, []) ≡ end
unfolding run
run-nil apps s end e = some-injective _ end e

pub run_lem :
    (apps : AppManifestMap) (s : LoaderService) (a : Action) (actions : List Action)
    (middle last : LoaderService × List Effect)
    → act apps s a ≡ some middle
    → run apps middle.0 actions ≡ some last
    → run apps s (a ∷ actions) ≡ some (last.0, middle.1 ++ last.1)
unfolding run
run_lem apps s a actions middle last step rest = rw (step, rest, run)

-- The first step of a history, and the rest of it.
pub run-cons :
    (apps : AppManifestMap) (s : LoaderService) (a : Action) (actions : List Action)
    (end : LoaderService × List Effect)
    → run apps s (a ∷ actions) ≡ some end
    → (middle last : LoaderService × List Effect) × Step apps s a middle
      × (run apps middle.0 actions ≡ some last)
      × ((last.0, middle.1 ++ last.1) ≡ end)
unfolding run
run-cons apps s a actions end e = elim (Option-cases (act apps s a)) [
  | inl crash ↦ absurd (ground arith)
  | inr (middle, step) ↦ elim (Option-cases (run apps middle.0 actions)) [
    | inl crash ↦ absurd (ground arith)
    | inr (last, rest) ↦ (
      middle,
      last,
      act-Step apps s a middle step,
      rest,
      some-injective _ end (sym (run_lem apps s a actions middle last step rest) ∙ e),
    )
  ]
]
