-- ===== src/Gps/Actions.antt =====
-- What happens to the GPS service, and the states that fit its devices.
use tactility_halo.Base.{
  ℕ, ◌≡◌, List, [], ◌∷◌, Option, none, some, if◌then◌else◌, All, set, get_elem?,
}
use tactility_halo.Gps.{
  device_on, device_error, no_thread, ended, GpsDeviceRecord, State, on, off, Rmc, GpsService,
  is_alive, start_receiving, stop_receiving, on_stop, call_subscriptions,
}

-- What the thread of a device does: it goes on, gives up with the state Error, or ends.
pub data Event (F : Type 0) : Type 0 where
  initialised fails ends : Event F
  parses : Rmc F → ℕ → Event F

pub data Action (C F : Type 0) : Type 0 where
  starts : Option (List C) → Action C F
  stops service_stops : Action C F
  -- of the device at an index
  happens : ℕ → Event F → Action C F

module _ {C F : Type 0} where
  -- Only a thread that is alive does something; `device_records` gets the device back.
  unfoldable pub happen : ℕ → Event F → GpsDeviceRecord C → GpsService C F → GpsService C F
  happen i initialised r s = record s {
    device_records =
        set s.device_records i (record r { device = record r.device { state = device_on } });
  }
  happen i fails r s = record s {
    device_records =
        set s.device_records i
          (record r { device = record r.device { state = device_error; thread = ended } });
  }
  happen i ends r s = record s {
    device_records =
        set s.device_records i (record r { device = record r.device { thread = ended } });
  }
  happen i (parses rmc now) r s = call_subscriptions r.device.rmc_subscriptions rmc now s

  unfoldable pub act : Action C F → GpsService C F → GpsService C F
  act (starts configurations) s = (start_receiving configurations s).0
  act stops s = stop_receiving s
  act service_stops s = on_stop s
  act (happens i event) s = elim (get_elem? s.device_records i) [
    | none ↦ s
    | some r ↦ if is_alive r.device.thread then happen i event r s else s
  ]

  unfoldable pub run : List (Action C F) → GpsService C F → GpsService C F
  run [] s = s
  run (action ∷ rest) s = run rest (act action s)

-- A device with a handler for each kind of frame, which the record knows, and one without.
abbrev pub IsActive : {C : Type 0} → GpsDeviceRecord C → Type 0
IsActive r =
    (r.device.gga_subscriptions ≡ r.satellite_subscription_id ∷ [])
    × (r.device.rmc_subscriptions ≡ r.rmc_subscription_id ∷ [])

abbrev pub IsIdle : {C : Type 0} → GpsDeviceRecord C → Type 0
IsIdle r =
    (r.device.gga_subscriptions ≡ [])
    × (r.device.rmc_subscriptions ≡ [])
    × (r.device.thread ≡ no_thread)

abbrev pub Fits : {C : Type 0} → State → List (GpsDeviceRecord C) → Type 0
Fits on records = All IsActive records
Fits off records = All IsIdle records
Fits _ records = ⊥

abbrev pub IsSettled : {C F : Type 0} → GpsService C F → Type 0
IsSettled s = Fits s.state s.device_records
