-- ===== src/Loader.antt =====
-- Tactility/Source/service/loader/Loader.cpp. A call of a handler gives the new state and what it
-- does to others, in order: the events that it publishes and the calls of the apps. The
-- dispatcher thread is the queue of the messages that it has not run. What an app does inside a
-- call of the loader, such as starting another app, is a step of its own after that call, because
-- it only adds a message to the queue.
pub mod Runs
pub mod Cases
pub mod Stack
pub mod Visible
pub mod Launches
pub mod Lifecycle
pub mod Root
pub mod Results
pub mod Tests
use tactility_halo.Base.{
  ℕ, ◌+◌, ◌%◌, ◌^◌, String, Bool, true, false, ◌&&◌, not, List, [], ◌∷◌, ◌++◌, Option, none, some,
  ltb, ◌==◌, if◌then◌else◌, length, str_eq,
}
use tactility_halo.Bundle.{Bundle}
use tactility_halo.Apps.{
  AppType, boot, AppState, initial, started, showing, hiding, stopped, AppResult, cancelled,
  ResultHolder, AppManifest, AppInstance, AppManifestMap, find_app_by_id, new_instance, set_state,
  move_result,
}

-- `LoaderEventType`
pub data LoaderEvent : Type 0 where
  application_started application_showing application_hiding application_stopped : LoaderEvent

pub data Effect : Type 0 where
  publish : LoaderEvent → Effect
  on_create on_destroy : ℕ → Effect
  -- to whom, from whom, and with what
  on_result : ℕ → ℕ → AppResult → Option Bundle → Effect

-- The functions that `startApp` and `stopApp` dispatch.
pub data Message : Type 0 where
  start_message : String → ℕ → Option Bundle → Message
  stop_message : String → Message

-- The top of `appStack` is the head of the list.
pub record LoaderService : Type 0 where
  pub app_stack : List AppInstance
  pub next_launch_id : ℕ
  pub queue : List Message

-- The effect of the change of state; the new state itself is set by `set_state`.
unfoldable pub transition_app_to_state : AppInstance → AppState → List Effect
transition_app_to_state app initial = []
transition_app_to_state app started = on_create app.launch_id ∷ []
transition_app_to_state app showing = publish application_showing ∷ []
transition_app_to_state app hiding = publish application_hiding ∷ []
transition_app_to_state app stopped = on_destroy app.launch_id ∷ []

-- The previous app, if there is one, goes into hiding.
unfoldable pub hide_previous : List AppInstance → List AppInstance × List Effect
hide_previous [] = ([], [])
hide_previous (previous_app ∷ rest) =
    (set_state previous_app hiding ∷ rest, transition_app_to_state previous_app hiding)

unfoldable pub is_boot : AppType → Bool
is_boot boot = true
is_boot _ = false

-- `onStartAppMessage` behind its two guards.
unfoldable pub start_instance :
    LoaderService → AppManifest → ℕ → Option Bundle → LoaderService × List Effect
start_instance s app_manifest launch_id parameters =
    let created = new_instance app_manifest launch_id parameters in
    let new_app : AppInstance = record created {
      show_statusbar = not (is_boot app_manifest.type);
    } in
    let (rest, hide_effects) = hide_previous s.app_stack in
    (
      record s { app_stack = set_state new_app showing ∷ rest },
      transition_app_to_state new_app initial
          ++ (transition_app_to_state new_app started
              ++ (hide_effects
                  ++ (transition_app_to_state new_app showing
                      ++ publish application_started ∷ []))),
    )

-- `locks` is whether the mutex is free within `LOADER_TIMEOUT`.
unfoldable pub on_start_app_message :
    AppManifestMap → Bool → LoaderService → String → ℕ → Option Bundle → LoaderService × List Effect
on_start_app_message apps locks s id launch_id parameters = elim (find_app_by_id apps id) [
  | none ↦ (s, [])
  | some app_manifest ↦
      if locks then start_instance s app_manifest launch_id parameters else (s, [])
]

-- The app below the stopped one is shown again.
unfoldable pub resume : List AppInstance → List AppInstance × List Effect
resume [] = ([], [])
resume (instance_to_resume ∷ rest) = (
  set_state instance_to_resume showing ∷ rest,
  transition_app_to_state instance_to_resume showing,
)

-- The result of the stopped app, for the resumed one.
unfoldable pub deliver : List AppInstance → ℕ → ResultHolder → List Effect
deliver [] stopped_id holder = []
deliver (instance_to_resume ∷ rest) stopped_id none =
    on_result instance_to_resume.launch_id stopped_id cancelled none ∷ []
deliver (instance_to_resume ∷ rest) stopped_id (some (result, result_bundle)) =
    on_result instance_to_resume.launch_id stopped_id result result_bundle ∷ []

-- `onStopAppMessage` behind its guards.
unfoldable pub stop_instance :
    LoaderService → AppInstance → List AppInstance → LoaderService × List Effect
stop_instance s app_to_stop rest =
    let (stopped_app, holder) = move_result app_to_stop in
    let (resumed, show_effects) = resume rest in
    (
      record s { app_stack = resumed },
      transition_app_to_state stopped_app hiding
          ++ (transition_app_to_state stopped_app stopped
              ++ (show_effects
                  ++ (publish application_stopped ∷ deliver rest stopped_app.launch_id holder))),
    )

-- "can't stop root app"
unfoldable pub is_fixed_root : AppInstance → List AppInstance → Bool
is_fixed_root app [] = not (is_boot app.manifest.type)
is_fixed_root app (below ∷ rest) = false

unfoldable pub stop_top : LoaderService → String → List AppInstance → LoaderService × List Effect
stop_top s id [] = (s, [])
stop_top s id (app_to_stop ∷ rest) =
    if not (str_eq app_to_stop.manifest.id id)
    then (s, [])
    else if is_fixed_root app_to_stop rest
    then (s, [])
    else stop_instance s app_to_stop rest

unfoldable pub on_stop_app_message : Bool → LoaderService → String → LoaderService × List Effect
on_stop_app_message locks s id = if locks then stop_top s id s.app_stack else (s, [])

-- The two steps of `startApp`, which holds no lock: it takes the next launch id, an unsigned int, and
-- dispatches the message with it.
unfoldable pub take_launch_id : LoaderService → LoaderService × ℕ
take_launch_id s = (record s { next_launch_id = (s.next_launch_id + 1) % 2 ^ 32 }, s.next_launch_id)

unfoldable pub dispatch_start : String → ℕ → Option Bundle → LoaderService → LoaderService
dispatch_start id launch_id parameters s = record s {
  queue = s.queue ++ start_message id launch_id parameters ∷ [];
}

-- `none` is `top()` of an empty stack, which has no defined result.
unfoldable pub get_current_app_context : LoaderService → Option AppInstance
get_current_app_context s = elim s.app_stack [ [] ↦ none | app ∷ rest ↦ some app ]

-- `stopApp` reads the current app, and dispatches the message with the id of its manifest.
unfoldable pub dispatch_stop : String → LoaderService → LoaderService
dispatch_stop id s = record s { queue = s.queue ++ stop_message id ∷ [] }

-- The dispatcher thread runs the oldest message.
unfoldable pub run_message :
    AppManifestMap → Bool → LoaderService → Message → LoaderService × List Effect
run_message apps locks s (start_message id launch_id parameters) =
    on_start_app_message apps locks s id launch_id parameters
run_message apps locks s (stop_message id) = on_stop_app_message locks s id
