-- ===== src/Wifi.antt =====
-- Tactility/Source/service/wifi/WifiEsp.cpp and the types of its headers. `E` is the state of the
-- driver, of the stored credentials and of the clock, which are parameters. The main dispatcher
-- calls one task after the other; a handler of the driver's events, which runs in another thread,
-- is taken to run between two tasks, or while `dispatchConnect` waits. Each function of the API
-- that takes `dataMutex` has as an input whether that is free in time.
pub mod Radio
pub mod Api
pub mod Runs
pub mod Tasks
pub mod Safety
pub mod Stuck
pub mod Staying
pub mod Limbo
pub mod Connecting
pub mod Tests
use tactility_halo.Base.{ℕ, Bool, true, false, ◌||◌, List, [], ◌∷◌, Option, none, some}
use tactility_halo.Text.{Str}

pub data RadioState : Type 0 where
  on_pending on connection_pending connection_active off_pending off : RadioState

pub data EventType : Type 0 where
  radio_state_on radio_state_on_pending radio_state_off radio_state_off_pending : EventType
  scan_started scan_finished disconnected : EventType
  connection_pending connection_success connection_failed : EventType

pub record ApRecord : Type 0 where
  pub ssid : Str
  pub rssi : ℕ
  pub channel : ℕ
  pub auth_mode : ℕ

pub record WifiApSettings : Type 0 where
  pub ssid : Str
  pub password : Str
  pub channel : ℕ
  pub auto_connect : Bool

-- The fields of a `wifi_config_t` that vary.
pub record Config : Type 0 where
  pub channel : ℕ
  pub fast_scan : Bool
  pub ssid : Str
  pub password : Str

pub data Task : Type 0 where
  auto_connect enable disable scan connect disconnect_but_keep_active : Task

-- The flag of each call is whether it returns `ESP_OK`. `register_handlers` stands for both
-- registrations, `set_mode` has the argument `WIFI_MODE_STA` or `WIFI_MODE_NULL`.
pub record Driver (E : Type 0) : Type 0 where
  pub init : E → E × Bool
  pub start : E → E × Bool
  pub stop : E → E × Bool
  pub deinit : E → E × Bool
  pub register_handlers : E → E × Bool
  pub unregister_handlers : E → E × Bool
  pub scan_start : E → E × Bool
  pub set_mode : Bool → E → E × Bool
  pub set_config : Config → E → E × Bool
  pub scan_stop : E → E
  pub connect : E → E
  pub get_ap_records : ℕ → E → E × Option (List ApRecord)
  pub save : WifiApSettings → E → E
  pub contains : Str → E → Bool
  pub load : Str → E → Option WifiApSettings
  pub get_ticks : E → ℕ

-- The instance of the class `Wifi`, with what goes with it: the driver, the queue of the main
-- dispatcher, the configuration with which `dispatchConnect` waits, and the events that were
-- published, the last one first.
pub record Wifi (E : Type 0) : Type 0 where
  pub radio_state : RadioState
  pub scan_active : Bool
  pub secure_connection : Bool
  -- whether there is a network interface
  pub netif : Bool
  -- `scan_list` with its first `scan_list_count` entries
  pub scan_list : Option (List ApRecord)
  pub scan_list_limit : ℕ
  pub last_scan_time : ℕ
  -- `connection_wait_flags`
  pub connected_bit : Bool
  pub fail_bit : Bool
  pub connection_target : WifiApSettings
  pub pause_auto_connect : Bool
  pub connection_target_remember : Bool
  pub driver : E
  pub tasks : List Task
  pub waiting : Option Config
  pub published : List EventType

abbrev pub no_target : WifiApSettings
no_target = record { ssid = []; password = []; channel = 0; auto_connect = false }

abbrev pub is_off : RadioState → Bool
is_off off = true
is_off _ = false

abbrev pub is_on : RadioState → Bool
is_on on = true
is_on _ = false

abbrev pub is_connection_pending : RadioState → Bool
is_connection_pending RadioState.connection_pending = true
is_connection_pending _ = false

-- `On`, `ConnectionActive` or `ConnectionPending`.
abbrev pub is_enabled : RadioState → Bool
is_enabled on = true
is_enabled connection_active = true
is_enabled RadioState.connection_pending = true
is_enabled _ = false

module _ {E : Type 0} where
  unfoldable pub publish : EventType → Wifi E → Wifi E
  publish type wifi = record wifi { published = type ∷ wifi.published }

  unfoldable pub set_radio_state : RadioState → Wifi E → Wifi E
  set_radio_state state wifi = record wifi { radio_state = state }

  unfoldable pub set_driver : E → Wifi E → Wifi E
  set_driver e wifi = record wifi { driver = e }
