-- ===== src/Gps/Tests.antt =====
-- Histories of the GPS service at fixed inputs. A configuration and a frame are numbers.
use tactility_halo.Base.{
  ℕ, ◌≡◌, ◌^◌, ◌+◌, ◌-◌, ◌%◌, leb, refl, true, List, [], ◌∷◌, none, some, arith, if◌then◌else◌,
}
use tactility_halo.Gps.{
  alive, device_pending_on, GpsDeviceRecord, init, stop_receiving, get_coordinates, has_coordinates,
  start_receiving, start_all, add_all, add_gps_device, start_gps_device, device_start,
  subscribe_gga, subscribe_rmc, set_state, on_rmc, call_subscriptions,
}
use tactility_halo.Gps.Actions.{
  Action, starts, stops, service_stops, happens, initialised, fails, parses, act, happen, run,
  IsSettled,
}
use tactility_halo.Gps.Receiving.{run-IsSettled, get_coordinates_lem}

abbrev history : List (Action ℕ ℕ)
history =
    starts none
    ∷ starts (some (1 ∷ 2 ∷ []))
    ∷ happens 0 initialised
    ∷ happens 1 fails
    ∷ starts (some [])
    ∷ service_stops
    ∷ stops
    ∷ starts (some (3 ∷ []))
    ∷ []

run-IsSettled_example : IsSettled (run history init)
run-IsSettled_example = run-IsSettled history init tt

-- The only device, in front of its initialisation.
abbrev record_started : GpsDeviceRecord ℕ
record_started = record {
  device = record {
    configuration = 3;
    thread = alive;
    gga_subscriptions = 1 ∷ [];
    rmc_subscriptions = 1 ∷ [];
    last_satellite_subscription_id = 1;
    last_rmc_subscription_id = 1;
    state = device_pending_on;
  };
  satellite_subscription_id = 1;
  rmc_subscription_id = 1;
}

abbrev reported : Action ℕ ℕ
reported = happens 0 (parses (record { frame = 42; has_value = true; has_scale = true }) 500)

get_coordinates_lem_example :
    (get_coordinates 10000 900 (act reported (run (starts (some (3 ∷ [])) ∷ []) init))
      ≡ (if leb 10000 ((900 + 2 ^ 32 - 500) % 2 ^ 32) then none else some 42))
    × (get_coordinates 10000 900
          (stop_receiving (act reported (run (starts (some (3 ∷ [])) ∷ []) init)))
        ≡ none)
unfolding run act start_receiving start_all add_all add_gps_device start_gps_device device_start
    subscribe_gga subscribe_rmc set_state
get_coordinates_lem_example =
    get_coordinates_lem (starts (some (3 ∷ [])) ∷ []) 0 record_started 42 10000 500 900 refl refl
      refl (omega arith)

-- A fix at the tick 0 counts as none.
fix_at_zero :
    get_coordinates {C = ℕ} {F = ℕ} 10000 900 (
      run
        (starts (some (3 ∷ []))
          ∷ happens 0 (parses (record { frame = 42; has_value = true; has_scale = true }) 0)
          ∷ [])
        init)
    ≡ none
unfolding run act happen get_coordinates has_coordinates start_receiving start_all add_all
    add_gps_device start_gps_device device_start subscribe_gga subscribe_rmc set_state on_rmc
    call_subscriptions
fix_at_zero = refl
