-- ===== src/Loader/Runs.antt =====
-- Histories of the loader: calls of its functions by other threads, and rounds of its dispatcher
-- thread.
use tactility_halo.Base.{
  ℕ, ◌==◌, String, Bool, if◌then◌else◌, List, [], ◌∷◌, ◌++◌, Option, none, some,
}
use tactility_halo.Bundle.{Bundle}
use tactility_halo.Apps.{AppResult, AppInstance, AppManifestMap, set_result}
use tactility_halo.Loader.{
  LoaderService, Effect, Message, take_launch_id, dispatch_start, dispatch_stop,
  get_current_app_context, run_message,
}

pub data Action : Type 0 where
  -- A call of `startApp` takes an id, and a call of `stopApp` reads the current app. Later they
  -- dispatch their messages; between the two steps those of other threads may come. Any id may be
  -- dispatched.
  takes_id : Action
  starts : String → ℕ → Option Bundle → Action
  reads_current : Action
  stops : String → Action
  -- The app of this launch id calls `setResult`.
  sets_result : ℕ → AppResult → Option Bundle → Action
  -- A round of the dispatcher thread; the flag is whether it gets the mutex.
  dispatches : Bool → Action

unfoldable pub set_result_of : ℕ → AppResult → Option Bundle → List AppInstance → List AppInstance
set_result_of launch_id result result_data [] = []
set_result_of launch_id result result_data (app ∷ rest) =
    (if app.launch_id == launch_id then set_result app result result_data else app)
    ∷ set_result_of launch_id result result_data rest

unfoldable pub dispatch_next :
    AppManifestMap → Bool → LoaderService → List Message → LoaderService × List Effect
dispatch_next apps locks s [] = (s, [])
dispatch_next apps locks s (message ∷ queue) =
    run_message apps locks (record s { queue = queue }) message

-- `none` is undefined behaviour.
unfoldable pub act : AppManifestMap → LoaderService → Action → Option (LoaderService × List Effect)
act apps s takes_id = some ((take_launch_id s).0, [])
act apps s (starts id launch_id parameters) = some (dispatch_start id launch_id parameters s, [])
act apps s reads_current = elim (get_current_app_context s) [
  | none ↦ none
  | some app ↦ some (s, [])
]
act apps s (stops id) = some (dispatch_stop id s, [])
act apps s (sets_result launch_id result result_data) =
    some (record s { app_stack = set_result_of launch_id result result_data s.app_stack }, [])
act apps s (dispatches locks) = some (dispatch_next apps locks s s.queue)

unfoldable pub run :
    AppManifestMap → LoaderService → List Action → Option (LoaderService × List Effect)
run apps s [] = some (s, [])
run apps s (action ∷ actions) = elim (act apps s action) [
  | none ↦ none
  | some (s', effects) ↦ elim (run apps s' actions) [
    | none ↦ none
    | some (s'', effects') ↦ some (s'', effects ++ effects')
  ]
]
