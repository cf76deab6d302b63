-- ===== src/Wifi/Tests.antt =====
-- Runs of WifiEsp.cpp at fixed inputs. The state of the driver is whether it is initialised.
use tactility_halo.Base.{◌≡◌, List, refl, Bool, true, false, [], ◌∷◌, none, some}
use tactility_halo.Wifi.{
  on, off, radio_state_on, WifiApSettings, Driver, Wifi, no_target, publish, set_radio_state,
  set_driver,
}
use tactility_halo.Wifi.Radio.{dispatch_disconnect_but_keep_active}
use tactility_halo.Wifi.Api.{dispatch, disconnect, on_sta_disconnected}
use tactility_halo.Wifi.Runs.{
  Action, connects, disconnects, sets_enabled, sta_starts, sta_disconnects, gets_ip, runs_task,
  wakes_up, run, act, next_task, run_task,
}
use tactility_halo.Wifi.Tasks.{Documented}
use tactility_halo.Wifi.Limbo.{run_limbo}
use tactility_halo.Wifi.Connecting.{connected, run-connected}

-- All calls succeed that are allowed; `has_memory` is whether the driver can be initialised.
abbrev driver : Bool → Driver Bool
driver has_memory = record {
  init = λ e. (has_memory, has_memory);
  start = λ e. (e, e);
  stop = λ e. (e, e);
  deinit = λ e. (false, e);
  register_handlers = λ e. (e, true);
  unregister_handlers = λ e. (e, true);
  scan_start = λ e. (e, e);
  set_mode = λ sta e. (e, e);
  set_config = λ config e. (e, e);
  scan_stop = λ e. e;
  connect = λ e. e;
  get_ap_records = λ limit e. (e, some []);
  save = λ settings e. e;
  contains = λ ssid e. false;
  load = λ ssid e. none;
  get_ticks = λ e. 0;
}

abbrev is_initialised : Bool → Bool
is_initialised e = e

driver-Documented : (has_memory : Bool) → Documented (driver has_memory) is_initialised
driver-Documented has_memory = record {
  stop_needs = λ e h. h;
  deinit_frees = λ e. refl;
  start_keeps = λ e. refl;
  stop_keeps = λ e. refl;
  scan_start_keeps = λ e. refl;
  set_config_keeps = λ c e. refl;
  scan_stop_keeps = λ e. refl;
  connect_keeps = λ e. refl;
  get_ap_records_keeps = λ n e. refl;
  save_keeps = λ s e. refl;
}

abbrev at_start : Wifi Bool
at_start = record {
  radio_state = off;
  scan_active = false;
  secure_connection = false;
  netif = false;
  scan_list = none;
  scan_list_limit = 16;
  last_scan_time = 0;
  connected_bit = false;
  fail_bit = false;
  connection_target = no_target;
  pause_auto_connect = false;
  connection_target_remember = false;
  driver = false;
  tasks = [];
  waiting = none;
  published = [];
}

abbrev home : WifiApSettings
home = record { ssid = b'h' ∷ []; password = b'p' ∷ []; channel = 1; auto_connect = true }

abbrev switched_on : Wifi Bool
switched_on = record at_start {
  radio_state = on;
  netif = true;
  driver = true;
  published = radio_state_on ∷ [];
}

abbrev on_and_off : List Action
on_and_off =
    connects true home true
    ∷ runs_task true true
    ∷ gets_ip
    ∷ wakes_up
    ∷ sets_enabled true false
    ∷ runs_task true true
    ∷ sets_enabled true true
    ∷ runs_task true true
    ∷ []

run_limbo_example :
    (wifi' : Wifi Bool) × (run
        (driver false)
        (connects true home false
          ∷ runs_task true true
          ∷ runs_task true true
          ∷ sets_enabled true false
          ∷ runs_task true true
          ∷ sets_enabled true true
          ∷ runs_task true true
          ∷ [])
        at_start
      ≡ some wifi')
    × (wifi'.radio_state ≡ on)
    × (wifi'.driver ≡ false)
run_limbo_example =
    run_limbo (driver false) is_initialised (driver-Documented false) (λ c e h. h) home false true
      (sets_enabled true false
        ∷ runs_task true true
        ∷ sets_enabled true true
        ∷ runs_task true true
        ∷ [])
      at_start refl refl refl refl refl refl

-- A driver that is always there, and does all it is asked.
abbrev obedient : Driver (Unit {0})
obedient = record {
  init = λ e. (e, true);
  start = λ e. (e, true);
  stop = λ e. (e, true);
  deinit = λ e. (e, true);
  register_handlers = λ e. (e, true);
  unregister_handlers = λ e. (e, true);
  scan_start = λ e. (e, true);
  set_mode = λ sta e. (e, true);
  set_config = λ config e. (e, true);
  scan_stop = λ e. e;
  connect = λ e. e;
  get_ap_records = λ limit e. (e, some []);
  save = λ settings e. e;
  contains = λ ssid e. false;
  load = λ ssid e. none;
  get_ticks = λ e. 0;
}

abbrev ready : Wifi (Unit {0})
ready = record {
  radio_state = on;
  scan_active = true;
  secure_connection = false;
  netif = true;
  scan_list = none;
  scan_list_limit = 16;
  last_scan_time = 0;
  connected_bit = false;
  fail_bit = false;
  connection_target = no_target;
  pause_auto_connect = false;
  connection_target_remember = false;
  driver = tt;
  tasks = [];
  waiting = none;
  published = radio_state_on ∷ [];
}

run-connected_example :
    run obedient
      (connects true home true ∷ runs_task true true ∷ sta_starts ∷ gets_ip ∷ wakes_up ∷ [])
      ready
    ≡ some (connected obedient (λ e. refl) (λ c e. refl) (λ e. refl) home true ready)
run-connected_example =
    run-connected obedient (λ e. refl) (λ c e. refl) (λ e. refl) home true true ready refl refl refl

-- The disconnection that was asked for lets the next scan connect again.
resumes_after_disconnect :
    elim (run obedient (disconnects true ∷ runs_task true true ∷ sta_disconnects ∷ []) ready) [
      | none ↦ true
      | some wifi ↦ wifi.pause_auto_connect
    ]
    ≡ false
unfolding run act next_task run_task disconnect dispatch dispatch_disconnect_but_keep_active
    on_sta_disconnected publish set_radio_state set_driver
resumes_after_disconnect = refl
