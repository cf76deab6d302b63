-- ===== src/Apps.antt =====
-- The apps of Tactility: Include/Tactility/app/App.h and AppManifest.h, Private/Tactility/app/
-- AppInstance.h, Source/app/AppInstance.cpp and Source/app/ManifestRegistry.cpp, all under
-- Tactility/. The mutexes make each operation atomic.
pub mod Registry
pub mod Tests
use tactility_halo.Base.{
  ℕ, String, Bool, true, false, List, [], ◌∷◌, Option, none, some, Dict, lookup, insert,
}
use tactility_halo.Bundle.{Bundle}

pub data AppType : Type 0 where
  boot launcher hidden system settings user : AppType

-- `Result`
pub data AppResult : Type 0 where
  ok cancelled error : AppResult

-- `State`
pub data AppState : Type 0 where
  initial started showing hiding stopped : AppState

-- The fields of `AppManifest` that the registry and the loader read.
pub record AppManifest : Type 0 where
  pub id : String
  pub name : String
  pub type : AppType

-- `std::unique_ptr<ResultHolder>` of an `App`, the bundle `none` for `nullptr`.
abbrev pub ResultHolder : Type 0
ResultHolder = Option (AppResult × Option Bundle)

-- An `AppInstance` together with its `App`.
pub record AppInstance : Type 0 where
  pub manifest : AppManifest
  pub state : AppState
  pub launch_id : ℕ
  pub show_statusbar : Bool
  pub parameters : Option Bundle
  pub result_holder : ResultHolder

-- The constructor, with the initial values of the members.
abbrev pub new_instance : AppManifest → ℕ → Option Bundle → AppInstance
new_instance manifest launch_id parameters = record {
  manifest = manifest;
  state = initial;
  launch_id = launch_id;
  show_statusbar = true;
  parameters = parameters;
  result_holder = none;
}

abbrev pub set_state : AppInstance → AppState → AppInstance
set_state app new_state = record app { state = new_state }

abbrev pub set_result : AppInstance → AppResult → Option Bundle → AppInstance
set_result app result result_data = record app { result_holder = some (result, result_data) }

-- The instance without the result, and the result.
abbrev pub move_result : AppInstance → AppInstance × ResultHolder
move_result app = (record app { result_holder = none }, app.result_holder)

-- `app_manifest_map`
abbrev pub AppManifestMap : Type 0
AppManifestMap = Dict AppManifest

unfoldable pub add_app : AppManifestMap → AppManifest → AppManifestMap
add_app m manifest = elim (lookup manifest.id m) [
  | none ↦ insert manifest.id manifest m
  | some _ ↦ m
]

unfoldable pub find_app_by_id : AppManifestMap → String → Option AppManifest
find_app_by_id m id = lookup id m

unfoldable pub get_apps : AppManifestMap → List AppManifest
get_apps [] = []
get_apps ((id, manifest) ∷ m) = manifest ∷ get_apps m
