-- ===== src/Wifi/Tasks.antt =====
-- The tasks of the dispatcher: the driver and its network interface.
use tactility_halo.Base.{ℕ, ◌≡◌, ◌≢◌, Bool, true, false, ◌||◌, not, [], none, some, arith}
use tactility_halo.Wifi.{WifiApSettings, Config, Driver, Wifi, publish, set_driver, set_radio_state}
use tactility_halo.Wifi.Radio.{
  config_of, enable_radio, dispatch_enable, disable_radio, dispatch_disable, start_scan,
  dispatch_scan, begin_connection, dispatch_connect, end_connection,
  dispatch_disconnect_but_keep_active,
}

-- What the documentation of the ESP-IDF says of the driver: `esp_wifi_deinit` frees it, only
-- `esp_wifi_init` allocates it, and a driver that is not there cannot be stopped.
pub record Documented {E : Type 0} (driver : Driver E) (initialised : E → Bool) : Type 0 where
  pub stop_needs : (e : E) → (driver.stop e).1 ≡ true → initialised e ≡ true
  pub deinit_frees : (e : E) → initialised (driver.deinit e).0 ≡ false
  pub start_keeps : (e : E) → initialised (driver.start e).0 ≡ initialised e
  pub stop_keeps : (e : E) → initialised (driver.stop e).0 ≡ initialised e
  pub scan_start_keeps : (e : E) → initialised (driver.scan_start e).0 ≡ initialised e
  pub set_config_keeps :
      (c : Config) (e : E) → initialised (driver.set_config c e).0 ≡ initialised e
  pub scan_stop_keeps : (e : E) → initialised (driver.scan_stop e) ≡ initialised e
  pub connect_keeps : (e : E) → initialised (driver.connect e) ≡ initialised e
  pub get_ap_records_keeps :
      (n : ℕ) (e : E) → initialised (driver.get_ap_records n e).0 ≡ initialised e
  pub save_keeps : (s : WifiApSettings) (e : E) → initialised (driver.save s e) ≡ initialised e

module _ {E : Type 0} (driver : Driver E) (initialised : E → Bool)
    (laws : Documented driver initialised) where
  -- A driver that is there has its network interface.
  abbrev pub IsSafe : Wifi E → Type 0
  IsSafe wifi = (not (initialised wifi.driver) || wifi.netif) ≡ true

  pub enable-IsSafe :
      (locks : Bool) (wifi wifi' : Wifi E)
      → dispatch_enable driver locks wifi ≡ some wifi'
      → IsSafe wifi
      → IsSafe wifi'
  unfolding dispatch_enable enable_radio publish set_radio_state set_driver
  enable-IsSafe locks wifi wifi' e k = ground (arith, e)

  pub enable_checks :
      (locks : Bool) (wifi : Wifi E)
      → (driver.register_handlers (driver.init wifi.driver).0).1 ≡ true
      → dispatch_enable driver locks wifi ≢ none
  unfolding dispatch_enable enable_radio publish set_radio_state set_driver
  enable_checks locks wifi registers e = ground (arith, registers)

  pub disable-IsSafe :
      (locks : Bool) (wifi wifi' : Wifi E)
      → dispatch_disable driver locks wifi ≡ some wifi'
      → IsSafe wifi
      → IsSafe wifi'
  unfolding dispatch_disable disable_radio publish set_radio_state set_driver
  disable-IsSafe locks wifi wifi' e k =
      let stopped = (driver.stop wifi.driver).0 in
      let unset = (driver.set_mode false stopped).0 in
      ground (
        arith,
        e,
        laws.stop_keeps wifi.driver,
        laws.deinit_frees (driver.unregister_handlers unset).0,
      )

  pub disable_checks :
      (locks : Bool) (wifi : Wifi E) → IsSafe wifi → dispatch_disable driver locks wifi ≢ none
  unfolding dispatch_disable disable_radio publish set_radio_state set_driver
  disable_checks locks wifi k e = ground (arith, laws.stop_needs wifi.driver)

  pub scan-IsSafe :
      (locks : Bool) (wifi : Wifi E) → IsSafe wifi → IsSafe (dispatch_scan driver locks wifi)
  unfolding dispatch_scan start_scan publish
  scan-IsSafe locks wifi k = ground (arith, laws.scan_start_keeps wifi.driver)

  pub begin-IsSafe : (wifi : Wifi E) → IsSafe wifi → IsSafe (begin_connection driver wifi)
  unfolding begin_connection publish set_radio_state set_driver
  begin-IsSafe wifi k =
      let config = config_of wifi.connection_target in
      ground (
        arith,
        laws.set_config_keeps config wifi.driver,
        laws.start_keeps (driver.set_config config wifi.driver).0,
      )

  pub connect-IsSafe :
      (locks : Bool) (wifi : Wifi E) → IsSafe wifi → IsSafe (dispatch_connect driver locks wifi)
  unfolding dispatch_connect
  connect-IsSafe locks wifi k =
      let stopped = record wifi { driver = (driver.stop wifi.driver).0 } in
      let keeps = laws.stop_keeps wifi.driver in
      let after : IsSafe stopped = ground (arith, keeps) in
      ground (arith, begin-IsSafe wifi k, begin-IsSafe stopped after, after)

  pub end-IsSafe :
      (config : Config) (wifi : Wifi E) → IsSafe wifi → IsSafe (end_connection driver config wifi)
  unfolding end_connection publish set_radio_state set_driver
  end-IsSafe config wifi k = ground (arith, laws.save_keeps wifi.connection_target wifi.driver)

  pub disconnect-IsSafe :
      (locks : Bool) (wifi : Wifi E)
      → IsSafe wifi
      → IsSafe (dispatch_disconnect_but_keep_active driver locks wifi)
  unfolding dispatch_disconnect_but_keep_active set_driver publish set_radio_state
  disconnect-IsSafe locks wifi k =
      let config : Config = record {
        channel = wifi.connection_target.channel;
        fast_scan = false;
        ssid = [];
        password = [];
      } in
      let stopped = (driver.stop wifi.driver).0 in
      ground (
        arith,
        laws.stop_keeps wifi.driver,
        laws.set_config_keeps config stopped,
        laws.start_keeps (driver.set_config config stopped).0,
      )
