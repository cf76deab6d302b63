-- ===== src/Gps.antt =====
-- Tactility/Source/service/gps/GpsService.cpp and the life of a GpsDevice. What the thread of a
-- device does is a list of events: its initialisation, its end, and the frames that it parses. The
-- handler of GGA frames only logs. `removeGpsDevice`, which nothing calls, is not modelled.
pub mod Actions
pub mod Records
pub mod Receiving
pub mod Tests
use tactility_halo.Base.{
  ℕ, zero, suc, ◌+◌, ◌-◌, ◌%◌, ◌^◌, leb, ◌==◌, Bool, true, false, not, ◌||◌, ◌&&◌, List, [], ◌∷◌,
  ◌++◌, map, Option, none, some, if◌then◌else◌,
}

pub data DeviceState : Type 0 where
  device_pending_on device_on device_error device_pending_off device_off : DeviceState

-- `thread` of a device: null, alive, or at its end.
pub data DeviceThread : Type 0 where
  no_thread alive ended : DeviceThread

-- A subscription is its id, since all have the same handler. An id is an `int`, as a number of 32
-- bits.
pub record GpsDevice (C : Type 0) : Type 0 where
  pub configuration : C
  pub thread : DeviceThread
  pub gga_subscriptions : List ℕ
  pub rmc_subscriptions : List ℕ
  pub last_satellite_subscription_id : ℕ
  pub last_rmc_subscription_id : ℕ
  pub state : DeviceState

pub record GpsDeviceRecord (C : Type 0) : Type 0 where
  pub device : GpsDevice C
  pub satellite_subscription_id : ℕ
  pub rmc_subscription_id : ℕ

pub data State : Type 0 where
  on_pending on off_pending off : State

-- A frame with the two tests of its handler: whether value and scale of the longitude are not zero.
pub record Rmc (F : Type 0) : Type 0 where
  pub frame : F
  pub has_value : Bool
  pub has_scale : Bool

pub record GpsService (C F : Type 0) : Type 0 where
  pub rmc_record : Option F
  pub rmc_time : ℕ
  pub device_records : List (GpsDeviceRecord C)
  pub state : State
  pub published : List State

abbrev pub is_on : State → Bool
is_on on = true
is_on _ = false

abbrev pub is_off : State → Bool
is_off off = true
is_off _ = false

abbrev pub is_alive : DeviceThread → Bool
is_alive alive = true
is_alive _ = false

unfoldable pub erase_id : ℕ → List ℕ → List ℕ
erase_id id [] = []
erase_id id (x ∷ xs) = if x == id then erase_id id xs else x ∷ erase_id id xs

module _ {C : Type 0} where
  abbrev pub new_device : C → GpsDevice C
  new_device configuration = record {
    configuration = configuration;
    thread = no_thread;
    gga_subscriptions = [];
    rmc_subscriptions = [];
    last_satellite_subscription_id = 0;
    last_rmc_subscription_id = 0;
    state = device_off;
  }

  unfoldable pub device_start : GpsDevice C → GpsDevice C
  device_start d =
      if is_alive d.thread then d else record d { state = device_pending_on; thread = alive }

  -- `join` waits for the thread, which then sees that it is interrupted.
  unfoldable pub device_stop : GpsDevice C → GpsDevice C
  device_stop d = record d { state = device_off; thread = no_thread }

  unfoldable pub subscribe_gga : GpsDevice C → GpsDevice C × ℕ
  subscribe_gga d =
      let id = (d.last_satellite_subscription_id + 1) % 2 ^ 32 in
      (
        record d {
          gga_subscriptions = d.gga_subscriptions ++ id ∷ [];
          last_satellite_subscription_id = id;
        },
        id,
      )

  unfoldable pub subscribe_rmc : GpsDevice C → GpsDevice C × ℕ
  subscribe_rmc d =
      let id = (d.last_rmc_subscription_id + 1) % 2 ^ 32 in
      (
        record d {
          rmc_subscriptions = d.rmc_subscriptions ++ id ∷ [];
          last_rmc_subscription_id = id;
        },
        id,
      )

  unfoldable pub unsubscribe_gga : ℕ → GpsDevice C → GpsDevice C
  unsubscribe_gga id d = record d { gga_subscriptions = erase_id id d.gga_subscriptions }

  unfoldable pub unsubscribe_rmc : ℕ → GpsDevice C → GpsDevice C
  unsubscribe_rmc id d = record d { rmc_subscriptions = erase_id id d.rmc_subscriptions }

  -- The result is true, since that of `GpsDevice::start` is.
  unfoldable pub start_gps_device : GpsDeviceRecord C → GpsDeviceRecord C × Bool
  start_gps_device r =
      let (gga, gga_id) = subscribe_gga (device_start r.device) in
      let (rmc, rmc_id) = subscribe_rmc gga in
      (
        record { device = rmc; satellite_subscription_id = gga_id; rmc_subscription_id = rmc_id },
        true,
      )

  -- An id of -1 stands for none.
  unfoldable pub stop_gps_device : GpsDeviceRecord C → GpsDeviceRecord C
  stop_gps_device r = record {
    device = device_stop (
        unsubscribe_rmc r.rmc_subscription_id
          (unsubscribe_gga r.satellite_subscription_id r.device));
    satellite_subscription_id = 2 ^ 32 - 1;
    rmc_subscription_id = 2 ^ 32 - 1;
  }

  -- The loop over the records, which are changed, and whether one has started.
  unfoldable pub start_all : List (GpsDeviceRecord C) → List (GpsDeviceRecord C) × Bool
  start_all [] = ([], false)
  start_all (r ∷ rest) =
      ((start_gps_device r).0 ∷ (start_all rest).0, (start_gps_device r).1 || (start_all rest).1)

module _ {C F : Type 0} where
  abbrev pub init : GpsService C F
  init = record {
    rmc_record = none;
    rmc_time = 0;
    device_records = [];
    state = off;
    published = [];
  }

  unfoldable pub set_state : State → GpsService C F → GpsService C F
  set_state state s = record s { state = state; published = s.published ++ state ∷ [] }

  unfoldable pub add_gps_device : GpsDevice C → GpsService C F → GpsService C F
  add_gps_device device s =
      let added : GpsDeviceRecord C = record {
        device = device;
        satellite_subscription_id = 2 ^ 32 - 1;
        rmc_subscription_id = 2 ^ 32 - 1;
      } in
      let pushed = if is_on s.state then (start_gps_device added).0 else added in
      record s { device_records = s.device_records ++ pushed ∷ [] }

  unfoldable pub add_all : List C → GpsService C F → GpsService C F
  add_all [] s = s
  add_all (configuration ∷ rest) s = add_all rest (add_gps_device (new_device configuration) s)

  -- `configurations` is what `getGpsConfigurations` reads; `none` is its failure.
  unfoldable pub start_receiving : Option (List C) → GpsService C F → GpsService C F × Bool
  start_receiving configurations s =
      let pending = record (set_state on_pending s) { device_records = [] } in
      if not (is_off s.state) then (s, false) else elim configurations [
        | none ↦ (set_state off pending, false)
        | some [] ↦ (set_state off pending, false)
        | some (first ∷ rest) ↦
            let added = add_all (first ∷ rest) pending in
            let (records, started) = start_all added.device_records in
            let reset = record added { device_records = records; rmc_time = 0 } in
            (set_state (if started then on else off) reset, started)
      ]

  unfoldable pub stop_receiving : GpsService C F → GpsService C F
  stop_receiving s =
      let pending = set_state off_pending s in
      set_state off
        (record pending { device_records = map stop_gps_device s.device_records; rmc_time = 0 })

  unfoldable pub on_stop : GpsService C F → GpsService C F
  on_stop s = if is_on s.state then stop_receiving s else s

  -- The handler of RMC frames; `now` is the clock.
  unfoldable pub on_rmc : Rmc F → ℕ → GpsService C F → GpsService C F
  on_rmc rmc now s =
      if rmc.has_value && rmc.has_scale
      then record s { rmc_record = some rmc.frame; rmc_time = now }
      else s

  -- The loop of a device over its subscriptions.
  unfoldable pub call_subscriptions : List ℕ → Rmc F → ℕ → GpsService C F → GpsService C F
  call_subscriptions [] rmc now s = s
  call_subscriptions (id ∷ rest) rmc now s = call_subscriptions rest rmc now (on_rmc rmc now s)

  -- `expire` is the number of ticks of 10 seconds.
  unfoldable pub has_coordinates : (expire now : ℕ) → GpsService C F → Bool
  has_coordinates expire now s =
      is_on s.state
      && not (s.rmc_time == 0)
      && not (leb expire ((now + 2 ^ 32 - s.rmc_time) % 2 ^ 32))

  unfoldable pub get_coordinates : (expire now : ℕ) → GpsService C F → Option F
  get_coordinates expire now s = if has_coordinates expire now s then s.rmc_record else none
