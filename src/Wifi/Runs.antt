-- ===== src/Wifi/Runs.antt =====
-- Histories of the Wi-Fi service: what other threads call, the driver's events, and the rounds of
-- the main dispatcher. A task is one step up to its wait; that the thread of the driver's events can
-- run in the middle of a task is not modelled.
use tactility_halo.Base.{
  arith, ℕ, ◌≡◌, ◌≢◌, refl, Bool, ◌||◌, List, [], ◌∷◌, Option, none, some, if◌then◌else◌,
}
use tactility_halo.Wifi.{
  WifiApSettings, Config, Task, auto_connect, enable, disable, scan, connect,
  disconnect_but_keep_active, Driver, Wifi,
}
use tactility_halo.Wifi.Radio.{
  dispatch_enable, dispatch_disable, dispatch_scan, dispatch_connect, end_connection,
  dispatch_disconnect_but_keep_active,
}
use tactility_halo.Wifi.Api.{
  request_scan, connect_to, disconnect, set_scan_records, set_enabled, dispatch_auto_connect,
  on_sta_start, on_sta_disconnected, on_got_ip, on_scan_done, on_auto_connect_timer,
}

pub data Action : Type 0 where
  -- calls of the API and of the timer
  scans : Action
  connects : Bool → WifiApSettings → Bool → Action
  disconnects : Bool → Action
  sets_records : Bool → ℕ → Action
  sets_enabled : Bool → Bool → Action
  timer_fires : Bool → Action
  -- events of the driver
  sta_starts sta_disconnects gets_ip scan_ends : Action
  -- the next task of the dispatcher, with the mutexes that it takes
  runs_task : Bool → Bool → Action
  -- `dispatchConnect` wakes up if a bit is set
  wakes_up : Action

-- An outcome that is no failed check, with what holds of it.
pub outcome :
    {A : Type 0} (P : A → Type 0) (o : Option A)
    → o ≢ none
    → ((a : A) → o ≡ some a → P a)
    → (a : A) × (o ≡ some a) × P a
outcome P none checks keeps = absurd (checks refl)
outcome P (some a) checks keeps = (a, refl, keeps a refl)

module _ {E : Type 0} (driver : Driver E) where
  unfoldable pub run_task : Bool → Bool → Task → Wifi E → Option (Wifi E)
  run_task locks locks_connect auto_connect wifi =
      some (dispatch_auto_connect driver locks locks_connect wifi)
  run_task locks locks_connect enable wifi = dispatch_enable driver locks wifi
  run_task locks locks_connect disable wifi = dispatch_disable driver locks wifi
  run_task locks locks_connect scan wifi = some (dispatch_scan driver locks wifi)
  run_task locks locks_connect connect wifi = some (dispatch_connect driver locks wifi)
  run_task locks locks_connect disconnect_but_keep_active wifi =
      some (dispatch_disconnect_but_keep_active driver locks wifi)

  -- While `dispatchConnect` waits, the dispatcher does not come to the next task.
  unfoldable pub next_task : Bool → Bool → List Task → Option Config → Wifi E → Option (Wifi E)
  next_task locks locks_connect [] waiting wifi = some wifi
  next_task locks locks_connect (task ∷ rest) (some config) wifi = some wifi
  next_task locks locks_connect (task ∷ rest) none wifi =
      run_task locks locks_connect task (record wifi { tasks = rest })

  unfoldable pub wake_up : Option Config → Wifi E → Wifi E
  wake_up none wifi = wifi
  wake_up (some config) wifi =
      if wifi.connected_bit || wifi.fail_bit then end_connection driver config wifi else wifi

  unfoldable pub act : Action → Wifi E → Option (Wifi E)
  act scans wifi = some (request_scan wifi)
  act (connects locks ap remember) wifi = some (connect_to locks ap remember wifi)
  act (disconnects locks) wifi = some (disconnect locks wifi)
  act (sets_records locks records) wifi = some (set_scan_records locks records wifi)
  act (sets_enabled locks enabled) wifi = some (set_enabled locks enabled wifi)
  act (timer_fires locks) wifi = some (on_auto_connect_timer driver locks wifi)
  act sta_starts wifi = some (on_sta_start driver wifi)
  act sta_disconnects wifi = some (on_sta_disconnected driver wifi)
  act gets_ip wifi = some (on_got_ip driver wifi)
  act scan_ends wifi = some (on_scan_done driver wifi)
  act (runs_task locks locks_connect) wifi =
      next_task locks locks_connect wifi.tasks wifi.waiting wifi
  act wakes_up wifi = some (wake_up wifi.waiting wifi)

  unfoldable pub run : List Action → Wifi E → Option (Wifi E)
  run [] wifi = some wifi
  run (action ∷ rest) wifi = elim (act action wifi) [ none ↦ none | some wifi' ↦ run rest wifi' ]

  pub run_step :
      (action : Action) (rest : List Action) (wifi next : Wifi E)
      → act action wifi ≡ some next
      → run (action ∷ rest) wifi ≡ run rest next
  unfolding run
  run_step action rest wifi next e = ground (arith, e)

  pub run_nil : (wifi : Wifi E) → run [] wifi ≡ some wifi
  unfolding run
  run_nil wifi = refl
