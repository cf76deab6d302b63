-- ===== src/Wifi/Connecting.antt =====
-- A request to connect, up to its success.
use tactility_halo.Base.{
  ◌≡◌, ◌∙◌, refl, ap, Bool, true, false, [], ◌∷◌, none, some, arith, if◌then◌else◌, take,
}
use tactility_halo.Text.{Str}
use tactility_halo.Wifi.{
  RadioState, on, connection_active, EventType, connection_success, WifiApSettings, Config, Driver,
  Wifi, connect, publish, set_radio_state, set_driver,
}
use tactility_halo.Wifi.Radio.{
  is_set, config_of, begin_connection, dispatch_connect, end_connection,
}
use tactility_halo.Wifi.Api.{dispatch, connect_to, on_sta_start, on_got_ip}
use tactility_halo.Wifi.Runs.{
  connects, sta_starts, gets_ip, runs_task, wakes_up, run_task, next_task, wake_up, act, run,
  run_step, run_nil,
}

is_set_kept : (s : Str) → is_set (if is_set s then take 64 s else []) ≡ is_set s
is_set_kept [] = refl
is_set_kept (c ∷ s) = refl

is_set-config_of :
    (target : WifiApSettings) → is_set (config_of target).password ≡ is_set target.password
unfolding config_of
is_set-config_of target = is_set_kept target.password

module _ {E : Type 0} (driver : Driver E)
    -- The driver does what it is asked to do.
    (stops : (e : E) → (driver.stop e).1 ≡ true)
    (configures : (c : Config) (e : E) → (driver.set_config c e).1 ≡ true)
    (starts : (e : E) → (driver.start e).1 ≡ true) (target : WifiApSettings) (remember : Bool) where
  -- The driver when it has begun to connect.
  abbrev pub connecting : E → E
  connecting e =
      driver.connect (driver.start (driver.set_config (config_of target) (driver.stop e).0).0).0

  -- The request, and the connection that is begun for it.
  abbrev asked : Wifi E → Wifi E
  asked wifi = record wifi {
    pause_auto_connect = true;
    connection_target = target;
    connection_target_remember = remember;
    tasks = connect ∷ [];
  }

  abbrev begun : Wifi E → Wifi E
  begun wifi = record (asked wifi) {
    radio_state = RadioState.connection_pending;
    scan_active = false;
    driver = (driver.start (driver.set_config (config_of target) (driver.stop wifi.driver).0).0).0;
    tasks = [];
    waiting = some (config_of target);
    published = EventType.connection_pending ∷ wifi.published;
  }

  asks :
      (wifi : Wifi E)
      → wifi.radio_state ≡ on
      → wifi.tasks ≡ []
      → act driver (connects true target remember) wifi ≡ some (asked wifi)
  unfolding act connect_to dispatch
  asks wifi is_on empty = ground (arith, is_on, empty)

  begins :
      (wifi : Wifi E)
      → wifi.radio_state ≡ on
      → dispatch_connect driver true wifi
        ≡ begin_connection driver (record wifi { driver = (driver.stop wifi.driver).0 })
  unfolding dispatch_connect
  begins wifi is_on = ground (arith, is_on, stops wifi.driver)

  begin-begun :
      (wifi : Wifi E)
      → begin_connection driver
          (record (asked wifi) { driver = (driver.stop wifi.driver).0; tasks = [] })
        ≡ begun wifi
  unfolding begin_connection publish set_radio_state set_driver
  begin-begun wifi =
      let e = (driver.stop wifi.driver).0 in
      ground
        (arith, configures (config_of target) e, starts (driver.set_config (config_of target) e).0)

  task_begins :
      (locks_connect : Bool) (wifi : Wifi E)
      → wifi.radio_state ≡ on
      → wifi.waiting ≡ none
      → act driver (runs_task true locks_connect) (asked wifi) ≡ some (begun wifi)
  unfolding act next_task run_task
  task_begins locks_connect wifi is_on idle =
      (λ i. next_task driver true locks_connect (connect ∷ []) (idle i) (asked wifi))
      ∙ ap some (begins (record (asked wifi) { tasks = [] }) is_on)
      ∙ ap some (begin-begun wifi)

  -- Behind a request from a radio that is on and idle.
  abbrev pub connected : Wifi E → Wifi E
  connected wifi = record wifi {
    radio_state = connection_active;
    scan_active = false;
    secure_connection = is_set target.password;
    connected_bit = false;
    fail_bit = false;
    connection_target = target;
    pause_auto_connect = false;
    connection_target_remember = remember;
    driver =
        if remember then driver.save target (connecting wifi.driver) else connecting wifi.driver;
    tasks = [];
    waiting = none;
    published = connection_success ∷ EventType.connection_pending ∷ wifi.published;
  }

  abbrev linked : Wifi E → Wifi E
  linked wifi = record (begun wifi) { driver = connecting wifi.driver }

  abbrev addressed : Wifi E → Wifi E
  addressed wifi = record (linked wifi) { connected_bit = true; pause_auto_connect = false }

  links : (wifi : Wifi E) → act driver sta_starts (begun wifi) ≡ some (linked wifi)
  unfolding act on_sta_start
  links wifi = refl

  gets_address : (wifi : Wifi E) → act driver gets_ip (linked wifi) ≡ some (addressed wifi)
  unfolding act on_got_ip
  gets_address wifi = refl

  wakes : (wifi : Wifi E) → act driver wakes_up (addressed wifi) ≡ some (connected wifi)
  unfolding act wake_up end_connection publish set_radio_state set_driver
  wakes wifi = λ i. some (record (connected wifi) { secure_connection = is_set-config_of target i })

  -- The radio is on, nothing waits, and the driver does what it is asked. A request to connect, its
  -- task, the start of the driver and the address from the access point lead to an active connection
  -- to the target: it is secure if there is a password, the pending and the active connection were
  -- published, the credentials were saved if that was asked, and no flag is left set.
  pub run-connected :
      (locks_connect : Bool) (wifi : Wifi E)
      → wifi.radio_state ≡ on
      → wifi.tasks ≡ []
      → wifi.waiting ≡ none
      → run driver
          (connects true target remember
            ∷ runs_task true locks_connect
            ∷ sta_starts
            ∷ gets_ip
            ∷ wakes_up
            ∷ [])
          wifi
        ≡ some (connected wifi)
  run-connected locks_connect wifi is_on empty idle =
      run_step driver (connects true target remember) _ wifi (asked wifi) (asks wifi is_on empty)
      ∙ run_step driver (runs_task true locks_connect) _ (asked wifi) (begun wifi)
          (task_begins locks_connect wifi is_on idle)
      ∙ run_step driver sta_starts _ (begun wifi) (linked wifi) (links wifi)
      ∙ run_step driver gets_ip _ (linked wifi) (addressed wifi) (gets_address wifi)
      ∙ run_step driver wakes_up [] (addressed wifi) (connected wifi) (wakes wifi)
      ∙ run_nil driver (connected wifi)
