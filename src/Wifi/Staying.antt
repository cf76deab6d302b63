-- ===== src/Wifi/Staying.antt =====
-- Histories of a radio that shows `On` while its driver is not initialised.
use tactility_halo.Base.{
  ◌≡◌, ◌∙◌, refl, ap, sym, subst, inl, inr, Bool, false, List, [], ◌∷◌, Option, none, some, arith,
  if◌then◌else◌, Option-cases,
}
use tactility_halo.Wifi.{
  WifiApSettings, Config, Driver, Wifi, Task, auto_connect, enable, disable, scan, connect,
  disconnect_but_keep_active, publish, set_radio_state, set_driver,
}
use tactility_halo.Wifi.Api.{
  dispatch, request_scan, connect_to, disconnect, set_scan_records, set_enabled, copy_scan_list,
  dispatch_auto_connect, find_auto_connect_ap, records_of, on_sta_start, on_sta_disconnected,
  on_got_ip, on_scan_done, on_auto_connect_timer,
}
use tactility_halo.Wifi.Runs.{
  Action, scans, connects, disconnects, sets_records, sets_enabled, timer_fires, sta_starts,
  sta_disconnects, gets_ip, scan_ends, runs_task, wakes_up, run_task, next_task, wake_up, act, run,
  outcome,
}
use tactility_halo.Wifi.Tasks.{Documented}
use tactility_halo.Wifi.Stuck.{
  InLimbo, enable_refused, disable_fails, disable-InLimbo, connect-InLimbo, disconnect-InLimbo,
  scan-InLimbo,
}

abbrev pub Stays : {E : Type 0} → (E → Bool) → Option (Wifi E) → Type 0
Stays {E} initialised o = (wifi' : Wifi E) × (o ≡ some wifi') × InLimbo initialised wifi'

module _ {E : Type 0} (driver : Driver E) (initialised : E → Bool)
    (laws : Documented driver initialised) where
  pub connect_to-InLimbo :
      (locks : Bool) (ap : WifiApSettings) (remember : Bool) (wifi : Wifi E)
      → InLimbo initialised wifi
      → InLimbo initialised (connect_to locks ap remember wifi)
  unfolding connect_to dispatch
  connect_to-InLimbo locks ap remember wifi k =
      (ground (arith, k.0), ground (arith, k.1), ground (arith, k.2))

  pub auto_connect-InLimbo :
      (locks locks_connect : Bool) (wifi : Wifi E)
      → InLimbo initialised wifi
      → InLimbo initialised (dispatch_auto_connect driver locks locks_connect wifi)
  unfolding dispatch_auto_connect
  auto_connect-InLimbo locks locks_connect wifi k =
      let chosen =
        if locks
        then find_auto_connect_ap driver (records_of wifi.scan_list) wifi.driver
        else none in
      elim (Option-cases chosen) [
        | inl nothing ↦ (
          ground (arith, nothing, k.0),
          ground (arith, nothing, k.1),
          ground (arith, nothing, k.2),
        )
        | inr (settings, found) ↦
            let on_it = connect_to-InLimbo locks_connect settings false wifi k in
            (
              ground (arith, found, on_it.0),
              ground (arith, found, on_it.1),
              ground (arith, found, on_it.2),
            )
      ]

  pub copy-InLimbo :
      (wifi : Wifi E)
      → InLimbo initialised wifi
      → InLimbo initialised (copy_scan_list driver wifi).0
  unfolding copy_scan_list
  copy-InLimbo wifi k =
      let gone = laws.get_ap_records_keeps wifi.scan_list_limit wifi.driver ∙ k.1 in
      (ground (arith, k.0), ground (arith, k.1, gone), ground (arith, k.2))

  pub scan_done-InLimbo :
      (wifi : Wifi E) → InLimbo initialised wifi → InLimbo initialised (on_scan_done driver wifi)
  unfolding on_scan_done publish dispatch
  scan_done-InLimbo wifi k =
      let copied = copy-InLimbo wifi k in
      let gone = laws.scan_stop_keeps (copy_scan_list driver wifi).0.driver ∙ copied.1 in
      (ground (arith, copied.0), ground (arith, copied.1, gone), ground (arith, copied.2))

  pub run_task-Stays :
      (locks locks_connect : Bool) (task : Task) (wifi : Wifi E)
      → InLimbo initialised wifi
      → Stays initialised (run_task driver locks locks_connect task wifi)
  unfolding run_task
  run_task-Stays locks locks_connect auto_connect wifi k =
      (_, refl, auto_connect-InLimbo locks locks_connect wifi k)
  run_task-Stays locks locks_connect enable wifi k =
      (wifi, enable_refused driver initialised laws locks wifi k, k)
  run_task-Stays locks locks_connect disable wifi k =
      outcome (InLimbo initialised) _ (disable_fails driver initialised laws locks wifi k)
        (λ wifi' e. disable-InLimbo driver initialised laws locks wifi wifi' e k)
  run_task-Stays locks locks_connect scan wifi k =
      (_, refl, scan-InLimbo driver initialised laws locks wifi k)
  run_task-Stays locks locks_connect connect wifi k =
      (_, refl, connect-InLimbo driver initialised laws locks wifi k)
  run_task-Stays locks locks_connect disconnect_but_keep_active wifi k =
      (_, refl, disconnect-InLimbo driver initialised laws locks wifi k)

  pub next_task-Stays :
      (locks locks_connect : Bool) (tasks : List Task) (waiting : Option Config) (wifi : Wifi E)
      → InLimbo initialised wifi
      → Stays initialised (next_task driver locks locks_connect tasks waiting wifi)
  unfolding next_task
  next_task-Stays locks locks_connect [] waiting wifi k = (wifi, refl, k)
  next_task-Stays locks locks_connect (task ∷ rest) (some config) wifi k = (wifi, refl, k)
  next_task-Stays locks locks_connect (task ∷ rest) none wifi k =
      run_task-Stays locks locks_connect task (record wifi { tasks = rest }) k

  pub asleep :
      (wifi : Wifi E) → InLimbo initialised wifi → InLimbo initialised (wake_up driver none wifi)
  unfolding wake_up
  asleep wifi k = k

  pub act-Stays :
      (action : Action) (wifi : Wifi E)
      → InLimbo initialised wifi
      → Stays initialised (act driver action wifi)
  unfolding act
  act-Stays scans wifi k = (_, refl, unfold request_scan dispatch in k)
  act-Stays (connects locks target remember) wifi k =
      (_, refl, connect_to-InLimbo locks target remember wifi k)
  act-Stays (disconnects locks) wifi k = (
    _,
    refl,
    unfold disconnect dispatch in (ground (arith, k.0), ground (arith, k.1), ground (arith, k.2)),
  )
  act-Stays (sets_records locks records) wifi k = (
    _,
    refl,
    unfold set_scan_records in (ground (arith, k.0), ground (arith, k.1), ground (arith, k.2)),
  )
  act-Stays (sets_enabled locks enabled) wifi k = (
    _,
    refl,
    unfold set_enabled dispatch in (ground (arith, k.0), ground (arith, k.1), ground (arith, k.2)),
  )
  act-Stays (timer_fires locks) wifi k = (
    _,
    refl,
    unfold on_auto_connect_timer dispatch in
        (ground (arith, k.0), ground (arith, k.1), ground (arith, k.2)),
  )
  act-Stays sta_starts wifi k = (
    _,
    refl,
    unfold on_sta_start in (ground (arith, k.0), ground (arith, k.0, k.1), ground (arith, k.2)),
  )
  act-Stays sta_disconnects wifi k = (
    _,
    refl,
    unfold on_sta_disconnected in
        unfold publish in unfold set_radio_state in unfold set_driver in (refl, k.1, k.2),
  )
  act-Stays gets_ip wifi k =
      (_, refl, unfold on_got_ip in (ground (arith, k.0), ground (arith, k.1), ground (arith, k.2)))
  act-Stays scan_ends wifi k = (_, refl, scan_done-InLimbo wifi k)
  act-Stays (runs_task locks locks_connect) wifi k =
      next_task-Stays locks locks_connect wifi.tasks wifi.waiting wifi k
  act-Stays wakes_up wifi k =
      (_, refl, subst (λ w. InLimbo initialised (wake_up driver w wifi)) (sym k.2) (asleep wifi k))

  pub run-Stays :
      (actions : List Action) (wifi : Wifi E)
      → InLimbo initialised wifi
      → Stays initialised (run driver actions wifi)
  unfolding run
  run-Stays [] wifi k = (wifi, refl, k)
  run-Stays (action ∷ rest) wifi k =
      let (next, acted, here) = act-Stays action wifi k in
      let (last, ran, there) = run-Stays rest next here in (last, ground (arith, acted, ran), there)
  -- A driver that is not initialised takes no configuration.
