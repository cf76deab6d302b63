-- ===== src/Services/Tests.antt =====
-- Runs of ServiceRegistry.cpp at fixed inputs.
use tactility_halo.Base.{◌≡◌, true, false, List, [], ◌∷◌, arith, lookup, insert}
use tactility_halo.Services.{Services, find_manifest_id, find_service_instance_by_id}
use tactility_halo.Services.Running.{
  Operation, starts, stops, run, is_some, IsValid, run-is_running, add_service-IsValid,
}
use tactility_halo.Services.{add_service, register_manifest}

abbrev empty : Services
empty = record { manifests = []; instances = []; made = 0 }

empty-IsValid : IsValid empty
unfolding find_manifest_id lookup
empty-IsValid id m e = absurd (ground (arith, e))

abbrev with_gui : Services
with_gui = (add_service empty (record { id = "Gui" }) false).0

with_gui-IsValid : IsValid with_gui
with_gui-IsValid = add_service-IsValid empty (record { id = "Gui" }) false empty-IsValid

-- The service runs again, another one is stopped, and one without a manifest is started.
abbrev restarts : List Operation
restarts = starts "Gui" ∷ stops "Gui" ∷ starts "Wifi" ∷ starts "Gui" ∷ stops "Wifi" ∷ []

run-is_running_example : is_some (find_service_instance_by_id (run with_gui restarts) "Gui") ≡ true
unfolding find_manifest_id find_service_instance_by_id register_manifest add_service lookup insert
run-is_running_example = run-is_running restarts with_gui "Gui" with_gui-IsValid
