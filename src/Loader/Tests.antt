-- ===== src/Loader/Tests.antt =====
-- Runs of Loader.cpp at fixed inputs.
use tactility_halo.Base.{ℕ, ◌≡◌, refl, true, List, [], ◌∷◌, none, some, arith, lookup}
use tactility_halo.Apps.{
  launcher, system, AppManifest, AppInstance, AppManifestMap, ok, showing, find_app_by_id,
}
use tactility_halo.Loader.{
  LoaderService, is_boot, Effect, publish, on_create, on_destroy, on_result, application_started,
  application_showing, application_hiding, application_stopped, hide_previous, start_instance,
  transition_app_to_state, on_start_app_message, take_launch_id, dispatch_start, run_message,
}
use tactility_halo.Loader.Runs.{
  takes_id, starts, reads_current, stops, sets_result, dispatches, dispatch_next, act, run,
}
use tactility_halo.Loader.Stack.{IsShown, IsValid}
use tactility_halo.Loader.Visible.{run-IsShown}
use tactility_halo.Loader.Launches.{run-IsValid}
use tactility_halo.Loader.Lifecycle.{living, run-living}
use tactility_halo.Loader.Root.{root, run-root}
use tactility_halo.Loader.Results.{idle_loader, result_delivered}

abbrev home : AppManifest
home = record { id = "Launcher"; name = "Launcher"; type = launcher }

abbrev dialog : AppManifest
dialog = record { id = "Dialog"; name = "Dialog"; type = system }

abbrev apps : AppManifestMap
apps = ("Launcher", home) ∷ ("Dialog", dialog) ∷ []

abbrev instance : AppManifest → ℕ → AppInstance
instance m l = record {
  manifest = m;
  state = showing;
  launch_id = l;
  show_statusbar = true;
  parameters = none;
  result_holder = none;
}

abbrev empty : LoaderService
empty = idle_loader [] 0

empty-IsValid : IsValid 0 empty
empty-IsValid = record { shown = tt; limit = 0; falls = tt; rises = omega arith }

abbrev at_home : LoaderService
at_home = idle_loader (instance home 0 ∷ []) 1

at_home-IsValid : IsValid 1 at_home
at_home-IsValid = record {
  shown = (refl, tt);
  limit = 1;
  falls = (omega arith, tt);
  rises = omega arith;
}

abbrev first_effects : List Effect
first_effects = on_create 0 ∷ publish application_showing ∷ publish application_started ∷ []

first_run :
    run apps empty (takes_id ∷ starts "Launcher" 0 none ∷ dispatches true ∷ [])
    ≡ some (at_home, first_effects)
unfolding run act take_launch_id dispatch_start dispatch_next run_message on_start_app_message
    start_instance hide_previous transition_app_to_state find_app_by_id lookup is_boot
first_run = refl

run-IsValid_example : IsValid 1 at_home
run-IsValid_example =
    run-IsValid apps (takes_id ∷ starts "Launcher" 0 none ∷ dispatches true ∷ []) 0 empty
      (at_home, first_effects) first_run (omega arith, tt) empty-IsValid

run-IsShown_example : IsShown at_home.app_stack
run-IsShown_example =
    run-IsShown apps (takes_id ∷ starts "Launcher" 0 none ∷ dispatches true ∷ []) empty
      (at_home, first_effects) first_run tt

run-living_example : living first_effects [] ≡ some (0 ∷ [])
run-living_example =
    run-living apps (takes_id ∷ starts "Launcher" 0 none ∷ dispatches true ∷ []) empty
      (at_home, first_effects) first_run

run-root_example :
    (end : LoaderService × List Effect) × (run apps at_home
        (reads_current ∷ stops "Launcher" ∷ dispatches true ∷ [])
      ≡ some end)
    × (root end.0.app_stack ≡ some (0, home))
run-root_example =
    run-root apps (reads_current ∷ stops "Launcher" ∷ dispatches true ∷ []) at_home (0, home) refl
      (unfold is_boot in refl)

result_delivered_example :
    run apps at_home (
      takes_id
      ∷ starts "Dialog" 1 none
      ∷ dispatches true
      ∷ sets_result 1 ok none
      ∷ reads_current
      ∷ stops "Dialog"
      ∷ dispatches true
      ∷ [])
    ≡ some (
      idle_loader (instance home 0 ∷ []) 2,
      on_create 1
          ∷ publish application_hiding
          ∷ publish application_showing
          ∷ publish application_started
          ∷ publish application_hiding
          ∷ on_destroy 1
          ∷ publish application_showing
          ∷ publish application_stopped
          ∷ on_result 0 1 ok none
          ∷ [],
    )
result_delivered_example =
    result_delivered apps "Dialog" dialog none none ok (instance home 0) [] 1
      (unfold find_app_by_id in unfold lookup in refl) at_home-IsValid
