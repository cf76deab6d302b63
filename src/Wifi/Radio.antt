-- ===== src/Wifi/Radio.antt =====
-- The tasks of the main dispatcher that work on the radio. `locks` is whether `radioMutex` is free in
-- time. `none` is a failed `ESP_ERROR_CHECK` or assertion.
use tactility_halo.Base.{
  Bool, true, false, not, ◌&&◌, [], ◌∷◌, Option, none, some, if◌then◌else◌, take,
}
use tactility_halo.Text.{Str}
use tactility_halo.Wifi.{
  RadioState, on_pending, on, connection_active, off_pending, off, EventType, radio_state_on,
  radio_state_on_pending, radio_state_off, radio_state_off_pending, scan_started, disconnected,
  connection_success, connection_failed, WifiApSettings, Config, Driver, Wifi, is_enabled, publish,
  set_radio_state, set_driver,
}

abbrev pub may_enable : RadioState → Bool
may_enable on = false
may_enable on_pending = false
may_enable off_pending = false
may_enable _ = true

abbrev pub is_set : Str → Bool
is_set [] = false
is_set (c ∷ _) = true

unfoldable pub config_of : WifiApSettings → Config
config_of target = record {
  channel = target.channel;
  fast_scan = true;
  ssid = take 32 target.ssid;
  password = if is_set target.password then take 64 target.password else [];
}

module _ {E : Type 0} (driver : Driver E) where
  -- `dispatchEnable` behind its guards.
  unfoldable pub enable_radio : Wifi E → Option (Wifi E)
  enable_radio wifi =
      let begun = record (publish radio_state_on_pending (set_radio_state on_pending wifi)) {
        netif = true;
      } in
      let (e, init_ok) = driver.init begun.driver in
      let (registered, register_ok) = driver.register_handlers e in
      let (sta, mode_ok) = driver.set_mode true registered in
      let (started, start_ok) = driver.start sta in
      let undone = (driver.deinit (driver.set_mode false started).0).0 in
      if not init_ok
      then some (publish radio_state_off (set_radio_state off (set_driver e begun)))
      else if not register_ok
      then none
      else if not mode_ok
      then some
          (publish radio_state_off (set_radio_state off (set_driver (driver.deinit sta).0 begun)))
      else if not start_ok
      then some (publish radio_state_off (set_radio_state off (set_driver undone begun)))
      else some (record (publish radio_state_on (set_radio_state on (set_driver started begun))) {
        pause_auto_connect = false;
      })

  unfoldable pub dispatch_enable : Bool → Wifi E → Option (Wifi E)
  dispatch_enable locks wifi =
      if may_enable wifi.radio_state && locks then enable_radio wifi else some wifi

  -- `dispatchDisable` behind its guards.
  unfoldable pub disable_radio : Wifi E → Option (Wifi E)
  disable_radio wifi =
      let begun = record (publish radio_state_off_pending (set_radio_state off_pending wifi)) {
        scan_list = none;
      } in
      let (stopped, stop_ok) = driver.stop begun.driver in
      let unset = (driver.set_mode false stopped).0 in
      let deinited = (driver.deinit (driver.unregister_handlers unset).0).0 in
      if not stop_ok
      then some (publish radio_state_on (set_radio_state on (set_driver stopped begun)))
      else if not wifi.netif
      then none
      else some
          (record (publish radio_state_off (set_radio_state off (set_driver deinited begun))) {
            netif = false;
            scan_active = false;
          })

  unfoldable pub dispatch_disable : Bool → Wifi E → Option (Wifi E)
  dispatch_disable locks wifi =
      if locks && is_enabled wifi.radio_state then disable_radio wifi else some wifi

  -- `dispatchScan` behind its guards.
  unfoldable pub start_scan : Wifi E → Wifi E
  start_scan wifi =
      let timed = record wifi { last_scan_time = driver.get_ticks wifi.driver } in
      let (started, start_ok) = driver.scan_start timed.driver in
      if start_ok
      then publish scan_started (record timed { driver = started; scan_active = true })
      else record timed { driver = started }

  unfoldable pub dispatch_scan : Bool → Wifi E → Wifi E
  dispatch_scan locks wifi =
      if locks && is_enabled wifi.radio_state && not wifi.scan_active then start_scan wifi else wifi

  -- `dispatchConnect` from the radio that is stopped to the wait.
  unfoldable pub begin_connection : Wifi E → Wifi E
  begin_connection wifi =
      let begun =
        record (publish EventType.connection_pending
          (set_radio_state RadioState.connection_pending wifi)) { scan_active = false } in
      let config = config_of wifi.connection_target in
      let (configured, config_ok) = driver.set_config config begun.driver in
      let (started, start_ok) = driver.start configured in
      if not config_ok
      then publish connection_failed (set_radio_state on (set_driver configured begun))
      else if not start_ok
      then publish connection_failed (set_radio_state on (set_driver started begun))
      else record begun { driver = started; waiting = some config }

  unfoldable pub dispatch_connect : Bool → Wifi E → Wifi E
  dispatch_connect locks wifi =
      let (stopped, stop_ok) = driver.stop wifi.driver in
      if not locks
      then wifi
      else if not (is_enabled wifi.radio_state)
      then begin_connection wifi
      else if not stop_ok
      then record wifi { driver = stopped; scan_active = false }
      else begin_connection (record wifi { driver = stopped })

  -- `dispatchConnect` behind the wait, which returns with one of the bits or with both.
  unfoldable pub end_connection : Config → Wifi E → Wifi E
  end_connection config wifi =
      let saved =
        if wifi.connection_target_remember
        then driver.save wifi.connection_target wifi.driver
        else wifi.driver in
      let ended = record wifi { connected_bit = false; fail_bit = false; waiting = none } in
      if wifi.connected_bit
      then record (publish connection_success
          (set_radio_state connection_active (set_driver saved ended))) {
            secure_connection = is_set config.password;
          }
      else publish connection_failed (set_radio_state on (set_driver wifi.driver ended))

  unfoldable pub dispatch_disconnect_but_keep_active : Bool → Wifi E → Wifi E
  dispatch_disconnect_but_keep_active locks wifi =
      let (stopped, stop_ok) = driver.stop wifi.driver in
      let config : Config = record {
        channel = wifi.connection_target.channel;
        fast_scan = false;
        ssid = [];
        password = [];
      } in
      let (configured, config_ok) = driver.set_config config stopped in
      let (started, start_ok) = driver.start configured in
      if not locks
      then wifi
      else if not stop_ok
      then set_driver stopped wifi
      else if not config_ok
      then publish radio_state_off (set_radio_state off (set_driver configured wifi))
      else if not start_ok
      then publish radio_state_off (set_radio_state off (set_driver started wifi))
      else publish disconnected (set_radio_state on (set_driver started wifi))
