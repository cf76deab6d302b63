-- ===== src/Devices.antt =====
-- Tactility/Source/hal/Device.cpp: the registry of the devices.
pub mod Registry
pub mod Removal
pub mod Tests
use tactility_halo.Base.{
  ℕ, ◌+◌, String, Bool, true, false, List, [], ◌∷◌, ◌++◌, Option, none, some, ◌==◌, str_eq,
  if◌then◌else◌, length, drop,
}

pub record Device : Type 0 where
  pub id : ℕ
  pub type : ℕ
  pub name : String

-- The devices that the filter accepts.
unfoldable pub find_devices : (Device → Bool) → List Device → List Device
find_devices accepts [] = []
find_devices accepts (device ∷ rest) =
    let found = find_devices accepts rest in if accepts device then device ∷ found else found

unfoldable pub find_device : (Device → Bool) → List Device → Option Device
find_device accepts devices = elim (find_devices accepts devices) [
  | [] ↦ none
  | device ∷ _ ↦ some device
]

abbrev pub find_device_by_name : String → List Device → Option Device
find_device_by_name name devices = find_device (λ device. str_eq device.name name) devices

abbrev pub find_device_by_id : ℕ → List Device → Option Device
find_device_by_id id devices = find_device (λ device. device.id == id) devices

abbrev pub find_devices_by_type : ℕ → List Device → List Device
find_devices_by_type type devices = find_devices (λ device. device.type == type) devices

unfoldable pub register_device : Device → List Device → List Device
register_device device devices = elim (find_device_by_id device.id devices) [
  | none ↦ devices ++ device ∷ []
  | some _ ↦ devices
]

-- `std::remove_if`: the elements that stay, and the number of the others. What is left in their
-- places is not specified.
unfoldable pub remove_if : ℕ → List Device → List Device × ℕ
remove_if id_to_remove [] = ([], 0)
remove_if id_to_remove (device ∷ rest) =
    let (kept, removed) = remove_if id_to_remove rest in
    if device.id == id_to_remove then (kept, removed + 1) else (device ∷ kept, removed)

-- `left_over n` is what `std::remove_if` leaves in `n` places. Only the first is erased.
unfoldable pub deregister_device : (ℕ → List Device) → Device → List Device → List Device
deregister_device left_over device devices =
    let (kept, removed) = remove_if device.id devices in
    if removed == 0 then devices else kept ++ drop 1 (left_over removed)
