-- ===== src/Wifi/Limbo.antt =====
-- How a radio comes to show `On` while its driver is not initialised.
use tactility_halo.Base.{
  ◌≡◌, ◌∙◌, refl, inl, inr, Bool, true, false, List, [], ◌∷◌, none, some, arith, Bool-cases,
}
use tactility_halo.Wifi.{
  on_pending, on, off, radio_state_on_pending, radio_state_off, WifiApSettings, Config, Driver,
  Wifi, Task, enable, connect, publish, set_radio_state, set_driver,
}
use tactility_halo.Wifi.Radio.{
  config_of, enable_radio, dispatch_enable, begin_connection, dispatch_connect,
}
use tactility_halo.Wifi.Api.{dispatch, connect_to}
use tactility_halo.Wifi.Runs.{Action, connects, runs_task, run_task, next_task, act, run, run_step}
use tactility_halo.Wifi.Tasks.{Documented}
use tactility_halo.Wifi.Stuck.{InLimbo}
use tactility_halo.Wifi.Staying.{run-Stays}

module _ {E : Type 0} (driver : Driver E) (initialised : E → Bool)
    (laws : Documented driver initialised) where
  module _
      (set_config_needs : (c : Config) (e : E)
        → (driver.set_config c e).1 ≡ true
        → initialised e ≡ true) where
    no_config : (c : Config) (e : E) → initialised e ≡ false → (driver.set_config c e).1 ≡ false
    no_config c e gone = elim (Bool-cases (driver.set_config c e).1) [
      | inl sets ↦ absurd (ground (arith, set_config_needs c e sets, gone))
      | inr fails ↦ fails
    ]

    abbrev after_failure : Wifi E → Wifi E
    after_failure wifi = publish radio_state_off (
        set_radio_state off (
          set_driver (driver.init wifi.driver).0
            (record (publish radio_state_on_pending (set_radio_state on_pending wifi)) {
              netif = true;
            })))

    enable_failing :
        (wifi : Wifi E)
        → wifi.radio_state ≡ off
        → (driver.init wifi.driver).1 ≡ false
        → dispatch_enable driver true wifi ≡ some (after_failure wifi)
    unfolding dispatch_enable enable_radio publish set_radio_state set_driver
    enable_failing wifi is_off fails = ground (arith, is_off, fails)

    connect_off :
        (wifi : Wifi E)
        → wifi.radio_state ≡ off
        → initialised wifi.driver ≡ false
        → wifi.waiting ≡ none
        → InLimbo initialised (dispatch_connect driver true wifi)
    unfolding dispatch_connect begin_connection publish set_radio_state set_driver
    connect_off wifi is_off gone idle =
        let config = config_of wifi.connection_target in
        let refused = no_config config wifi.driver gone in
        let still = laws.set_config_keeps config wifi.driver ∙ gone in
        (
          ground (arith, is_off, refused),
          ground (arith, is_off, refused, still),
          ground (arith, is_off, refused, idle),
        )

    abbrev requested : WifiApSettings → Bool → Wifi E → Wifi E
    requested target remember wifi = record wifi {
      pause_auto_connect = true;
      connection_target = target;
      connection_target_remember = remember;
      tasks = enable ∷ connect ∷ [];
    }

    act_connects :
        (target : WifiApSettings) (remember : Bool) (wifi : Wifi E)
        → wifi.radio_state ≡ off
        → wifi.tasks ≡ []
        → act driver (connects true target remember) wifi ≡ some (requested target remember wifi)
    unfolding act connect_to dispatch
    act_connects target remember wifi is_off empty = ground (arith, is_off, empty)

    act_enables :
        (rest : List Task) (locks_connect : Bool) (wifi : Wifi E)
        → wifi.radio_state ≡ off
        → (driver.init wifi.driver).1 ≡ false
        → wifi.waiting ≡ none
        → wifi.tasks ≡ enable ∷ rest
        → act driver (runs_task true locks_connect) wifi
          ≡ some (after_failure (record wifi { tasks = rest }))
    unfolding act
    act_enables rest locks_connect wifi is_off fails idle first =
        (λ i. next_task driver true locks_connect (first i) (idle i) wifi)
        ∙ enables rest locks_connect wifi is_off fails
      where
        enables :
            (rest : List Task) (locks_connect : Bool) (wifi : Wifi E)
            → wifi.radio_state ≡ off
            → (driver.init wifi.driver).1 ≡ false
            → next_task driver true locks_connect (enable ∷ rest) none wifi
              ≡ some (after_failure (record wifi { tasks = rest }))
        enables rest locks_connect wifi is_off fails =
            unfold next_task run_task in enable_failing (record wifi { tasks = rest }) is_off fails

    act_connects_off :
        (rest : List Task) (locks_connect : Bool) (wifi : Wifi E)
        → wifi.waiting ≡ none
        → wifi.tasks ≡ connect ∷ rest
        → act driver (runs_task true locks_connect) wifi
          ≡ some (dispatch_connect driver true (record wifi { tasks = rest }))
    unfolding act next_task run_task
    act_connects_off rest locks_connect wifi idle first =
        λ i. next_task driver true locks_connect (first i) (idle i) wifi

    -- The radio is off, nothing waits, and the driver is not initialised. If it cannot be initialised
    -- for a request to connect, the radio shows `On` behind it, and in every later history, whatever
    -- is called, the radio still shows `On` and the driver is not initialised.
    pub run_limbo :
        (target : WifiApSettings) (remember locks_connect : Bool) (actions : List Action)
        (wifi : Wifi E)
        → wifi.radio_state ≡ off
        → initialised wifi.driver ≡ false
        → wifi.waiting ≡ none
        → wifi.tasks ≡ []
        → (driver.init wifi.driver).1 ≡ false
        → initialised (driver.init wifi.driver).0 ≡ false
        → (wifi' : Wifi E) × (run driver
              (connects true target remember
                ∷ runs_task true locks_connect
                ∷ runs_task true locks_connect
                ∷ actions)
              wifi
            ≡ some wifi')
          × (wifi'.radio_state ≡ on)
          × (initialised wifi'.driver ≡ false)
    unfolding publish set_radio_state set_driver
    run_limbo target remember locks_connect actions wifi is_off gone idle empty fails still =
        let asked = requested target remember wifi in
        let refused = after_failure (record asked { tasks = connect ∷ [] }) in
        let shown = dispatch_connect driver true (record refused { tasks = [] }) in
        let limbo : InLimbo initialised shown =
          connect_off (record refused { tasks = [] }) refl still idle in
        let (last, ran, there) = run-Stays driver initialised laws actions shown limbo in
        (
          last,
          run_step driver (connects true target remember) _ wifi asked
                (act_connects target remember wifi is_off empty)
              ∙ run_step driver (runs_task true locks_connect) _ asked refused
                  (act_enables (connect ∷ []) locks_connect asked is_off fails idle refl)
              ∙ run_step driver (runs_task true locks_connect) actions refused shown
                  (act_connects_off [] locks_connect refused idle refl)
              ∙ ran,
          there.0,
          there.1,
        )
