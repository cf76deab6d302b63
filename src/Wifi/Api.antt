-- ===== src/Wifi/Api.antt =====
-- The functions that other threads call, the timer, and the handler of the driver's events.
use tactility_halo.Base.{
  ℕ, ◌+◌, ◌-◌, ◌%◌, ◌^◌, ◌==◌, ltb, Bool, true, false, not, ◌||◌, ◌&&◌, List, [], ◌∷◌, ◌++◌, Option,
  none, some, if◌then◌else◌, take,
}
use tactility_halo.Text.{Str}
use tactility_halo.Wifi.{
  RadioState, on, connection_active, off_pending, off, scan_finished, disconnected, ApRecord,
  WifiApSettings, Task, auto_connect, enable, disable, scan, connect, disconnect_but_keep_active,
  Driver, Wifi, is_off, is_on, is_connection_pending, no_target, publish, set_radio_state,
  set_driver,
}

abbrev pub records_of : Option (List ApRecord) → List ApRecord
records_of none = []
records_of (some records) = records

-- States in which the driver's results can be read.
abbrev pub can_fetch : RadioState → Bool
can_fetch on = true
can_fetch connection_active = true
can_fetch _ = false

abbrev pub is_stopped : RadioState → Bool
is_stopped off = true
is_stopped off_pending = true
is_stopped _ = false

module _ {E : Type 0} where
  unfoldable pub dispatch : Task → Wifi E → Wifi E
  dispatch task wifi = record wifi { tasks = wifi.tasks ++ task ∷ [] }

  unfoldable pub request_scan : Wifi E → Wifi E
  request_scan = dispatch scan

  unfoldable pub connect_to : Bool → WifiApSettings → Bool → Wifi E → Wifi E
  connect_to locks ap remember wifi =
      let target = record wifi {
        pause_auto_connect = true;
        connection_target = ap;
        connection_target_remember = remember;
      } in
      let enabling = if is_off target.radio_state then dispatch enable target else target in
      if locks then dispatch connect enabling else wifi

  unfoldable pub disconnect : Bool → Wifi E → Wifi E
  disconnect locks wifi =
      if locks
      then dispatch disconnect_but_keep_active
          (record wifi { connection_target = no_target; pause_auto_connect = true })
      else wifi

  unfoldable pub set_scan_records : Bool → ℕ → Wifi E → Wifi E
  set_scan_records locks records wifi =
      if locks && not (records == wifi.scan_list_limit)
      then record wifi { scan_list = none; scan_list_limit = records }
      else wifi

  unfoldable pub set_enabled : Bool → Bool → Wifi E → Wifi E
  set_enabled locks enabled wifi =
      if locks
      then record (dispatch (if enabled then enable else disable) wifi) {
        pause_auto_connect = false;
        last_scan_time = 0;
      }
      else wifi

  unfoldable pub get_scan_results : Bool → Wifi E → List ApRecord
  get_scan_results locks wifi = if locks then records_of wifi.scan_list else []

  unfoldable pub get_connection_target : Wifi E → Str
  get_connection_target wifi = elim wifi.radio_state [
    | RadioState.connection_pending ↦ wifi.connection_target.ssid
    | connection_active ↦ wifi.connection_target.ssid
    | _ ↦ []
  ]

  unfoldable pub is_connection_secure : Bool → Wifi E → Bool
  is_connection_secure locks wifi = if locks then wifi.secure_connection else false

module _ {E : Type 0} (driver : Driver E) where
  -- The state and whether a list was copied.
  unfoldable pub copy_scan_list : Wifi E → Wifi E × Bool
  copy_scan_list wifi =
      let (e, result) = driver.get_ap_records wifi.scan_list_limit wifi.driver in
      if can_fetch wifi.radio_state && wifi.scan_active
      then elim result [
        | none ↦ (record wifi { driver = e; scan_list = some [] }, false)
        | some records ↦
            (record wifi { driver = e; scan_list = some (take wifi.scan_list_limit records) }, true)
      ]
      else (wifi, false)

  -- The first access point of the scan with stored credentials decides.
  unfoldable pub find_auto_connect_ap : List ApRecord → E → Option WifiApSettings
  find_auto_connect_ap [] e = none
  find_auto_connect_ap (ap ∷ rest) e =
      let later = find_auto_connect_ap rest e in
      if driver.contains ap.ssid e
      then elim (driver.load ap.ssid e) [
        | none ↦ none
        | some settings ↦ if settings.auto_connect then some settings else none
      ]
      else later

  -- The locks are those of `find_auto_connect_ap` and of `connect`.
  unfoldable pub dispatch_auto_connect : Bool → Bool → Wifi E → Wifi E
  dispatch_auto_connect locks locks_connect wifi =
      elim (if locks then find_auto_connect_ap (records_of wifi.scan_list) wifi.driver else none) [
        | none ↦ wifi
        | some settings ↦ record (connect_to locks_connect settings false wifi) {
          pause_auto_connect = false;
        }
      ]

  unfoldable pub on_sta_start : Wifi E → Wifi E
  on_sta_start wifi =
      if is_connection_pending wifi.radio_state
      then record wifi { driver = driver.connect wifi.driver }
      else wifi

  unfoldable pub on_sta_disconnected : Wifi E → Wifi E
  on_sta_disconnected wifi = publish disconnected (
      set_radio_state on (
        set_driver wifi.driver (record wifi {
          fail_bit = if is_connection_pending wifi.radio_state then true else wifi.fail_bit;
          pause_auto_connect = if is_on wifi.radio_state then false else wifi.pause_auto_connect;
        })))

  unfoldable pub on_got_ip : Wifi E → Wifi E
  on_got_ip wifi =
      if is_connection_pending wifi.radio_state
      then record wifi { connected_bit = true; pause_auto_connect = false }
      else wifi

  unfoldable pub on_scan_done : Wifi E → Wifi E
  on_scan_done wifi =
      let (copied, is_copied) = copy_scan_list wifi in
      let ended =
        if is_stopped copied.radio_state
        then copied
        else record copied { driver = driver.scan_stop copied.driver; scan_active = false } in
      let finished = publish scan_finished ended in
      if is_copied && is_on finished.radio_state && not finished.pause_auto_connect
      then dispatch auto_connect finished
      else finished

  -- 10000 milliseconds in ticks of 1 millisecond.
  unfoldable pub should_scan_for_auto_connect : Bool → Wifi E → Bool
  should_scan_for_auto_connect locks wifi =
      let now = driver.get_ticks wifi.driver in
      locks
      && ((is_on wifi.radio_state && not wifi.scan_active && not wifi.pause_auto_connect)
          && (ltb now wifi.last_scan_time
              || ltb 10000 ((now + 2 ^ 32 - wifi.last_scan_time) % 2 ^ 32)))

  unfoldable pub on_auto_connect_timer : Bool → Wifi E → Wifi E
  on_auto_connect_timer locks wifi =
      if should_scan_for_auto_connect locks wifi then dispatch scan wifi else wifi
