-- ===== src/Gps/Receiving.antt =====
-- Histories of the GPS service.
use tactility_halo.Base.{
  ℕ, ◌+◌, ◌-◌, ◌%◌, ◌^◌, leb, ◌≡◌, refl, true, ◌&&◌, List, [], ◌∷◌, Option, none, some,
  if◌then◌else◌, arith, All, get_elem?, All-append, ◌⊎◌, inl, inr, Bool-cases, Option-cases, ◌≢◌,
}
use tactility_halo.Gps.{
  alive, GpsDeviceRecord, State, on_pending, on, off, Rmc, GpsService, is_on, is_alive, init,
  set_state, add_gps_device, add_all, start_receiving, stop_receiving, on_stop, on_rmc,
  call_subscriptions, has_coordinates, get_coordinates,
}
use tactility_halo.Gps.Actions.{
  Event, initialised, fails, ends, parses, Action, starts, stops, service_stops, happens, IsActive,
  IsIdle, Fits, IsSettled, happen, act, run,
}
use tactility_halo.Gps.Records.{
  stop_all-IsIdle, restop_all-IsIdle, set-IsActive, get-All, started-Fits, Fits-cases,
}

module _ {C F : Type 0} where
  add_all-IsIdle :
      (configurations : List C) (s : GpsService C F)
      → s.state ≡ on_pending
      → All IsIdle s.device_records
      → All IsIdle (add_all configurations s).device_records
  unfolding add_all add_gps_device
  add_all-IsIdle [] s pending idle = idle
  add_all-IsIdle (configuration ∷ rest) s pending idle =
      add_all-IsIdle rest _ pending
        (All-append IsIdle s.device_records _ idle (rw pending (refl, refl, refl), tt))

  set_state-Fits :
      (state : State) (s : GpsService C F)
      → Fits state s.device_records
      → IsSettled (set_state state s)
  unfolding set_state
  set_state-Fits state s fits = fits

  IsSettled-cases :
      (s : GpsService C F)
      → IsSettled s
      → ((s.state ≡ on) × All IsActive s.device_records)
        ⊎ ((s.state ≡ off) × All IsIdle s.device_records)
  IsSettled-cases s valid = Fits-cases s.state s.device_records valid

  started-IsSettled :
      (configurations : Option (List C)) (s : GpsService C F)
      → s.state ≡ off
      → IsSettled (start_receiving configurations s).0
  unfolding start_receiving set_state
  started-IsSettled none s stopped = rw stopped tt
  started-IsSettled (some []) s stopped = rw stopped tt
  started-IsSettled (some (first ∷ rest)) s stopped =
      rw stopped (started-Fits _ (add_all-IsIdle (first ∷ rest) _ refl tt))

  start-IsSettled :
      (configurations : Option (List C)) (s : GpsService C F)
      → IsSettled s
      → IsSettled (start_receiving configurations s).0
  unfolding start_receiving
  start-IsSettled configurations s valid = elim (IsSettled-cases s valid) [
    | inl (receives, active) ↦ rw receives active
    | inr (stopped, idle) ↦ started-IsSettled configurations s stopped
  ]

  stop-IsSettled : (s : GpsService C F) → IsSettled s → IsSettled (stop_receiving s)
  unfolding stop_receiving set_state
  stop-IsSettled s valid = elim (IsSettled-cases s valid) [
    | inl (receives, active) ↦ stop_all-IsIdle s.device_records active
    | inr (stopped, idle) ↦ restop_all-IsIdle s.device_records idle
  ]

  call-IsSettled :
      (ids : List ℕ) (rmc : Rmc F) (now : ℕ) (s : GpsService C F)
      → IsSettled s
      → IsSettled (call_subscriptions ids rmc now s)
  unfolding call_subscriptions on_rmc
  call-IsSettled [] rmc now s valid = valid
  call-IsSettled (id ∷ rest) rmc now s valid =
      call-IsSettled rest rmc now _ (elim (Bool-cases (rmc.has_value && rmc.has_scale)) [
        | inl has_fix ↦ rw has_fix valid
        | inr no_fix ↦ rw no_fix valid
      ])

  happen-IsActive :
      (i : ℕ) (event : Event F) (r : GpsDeviceRecord C) (s : GpsService C F)
      → IsSettled s
      → s.state ≡ on
      → All IsActive s.device_records
      → get_elem? s.device_records i ≡ some r
      → IsSettled (happen i event r s)
  unfolding happen
  happen-IsActive i initialised r s valid receives active found =
      rw receives (set-IsActive _ i _ active (get-All IsActive s.device_records i r active found))
  happen-IsActive i fails r s valid receives active found =
      rw receives (set-IsActive _ i _ active (get-All IsActive s.device_records i r active found))
  happen-IsActive i ends r s valid receives active found =
      rw receives (set-IsActive _ i _ active (get-All IsActive s.device_records i r active found))
  happen-IsActive i (parses rmc now) r s valid receives active found =
      call-IsSettled r.device.rmc_subscriptions rmc now s valid

  happens-IsSettled :
      (i : ℕ) (event : Event F) (s : GpsService C F)
      → IsSettled s
      → IsSettled (act (happens i event) s)
  unfolding act
  happens-IsSettled i event s valid = elim (Option-cases (get_elem? s.device_records i)) [
    | inl nothing ↦ rw (act, nothing) valid
    | inr (r, found) ↦ elim (IsSettled-cases s valid) [
      | inl (receives, active) ↦ elim (Bool-cases (is_alive r.device.thread)) [
        | inl lives ↦
            rw (act, found, lives) (happen-IsActive i event r s valid receives active found)
        | inr dead ↦ rw (act, found, dead) valid
      ]
      | inr (stopped, idle) ↦
          rw (act, found, (get-All IsIdle s.device_records i r idle found).2) valid
    ]
  ]

  act-IsSettled :
      (action : Action C F) (s : GpsService C F) → IsSettled s → IsSettled (act action s)
  unfolding act on_stop
  act-IsSettled (starts configurations) s valid = start-IsSettled configurations s valid
  act-IsSettled stops s valid = stop-IsSettled s valid
  act-IsSettled service_stops s valid = elim (Bool-cases (is_on s.state)) [
    | inl receives ↦ rw receives (stop-IsSettled s valid)
    | inr stopped ↦ rw stopped valid
  ]
  act-IsSettled (happens i event) s valid = happens-IsSettled i event s valid

  -- Every history of starts, stops and events of the devices keeps the following: the service is On
  -- or Off; in On each device has exactly one handler of each kind, the one that its record will take
  -- back; in Off no device has a handler or a thread. That holds of the service at its start.
  pub run-IsSettled :
      (actions : List (Action C F)) (s : GpsService C F) → IsSettled s → IsSettled (run actions s)
  unfolding run
  run-IsSettled [] s valid = valid
  run-IsSettled (action ∷ rest) s valid =
      run-IsSettled rest (act action s) (act-IsSettled action s valid)

  report_lem :
      (i : ℕ) (r : GpsDeviceRecord C) (frame : F) (t : ℕ) (s : GpsService C F)
      → All IsActive s.device_records
      → get_elem? s.device_records i ≡ some r
      → r.device.thread ≡ alive
      → act (happens i (parses (record { frame = frame; has_value = true; has_scale = true }) t)) s
        ≡ record s { rmc_record = some frame; rmc_time = t }
  unfolding act happen call_subscriptions on_rmc
  report_lem i r frame t s active found lives =
      rw (act, found, lives, (get-All IsActive s.device_records i r active found).1) refl

  -- After every history: a position that a living device reports while the service is On, at a tick
  -- that is not 0, is what getCoordinates returns while less than 10 seconds have passed, and nothing
  -- is behind that, or once the service is stopped.
  pub get_coordinates_lem :
      (actions : List (Action C F)) (i : ℕ) (r : GpsDeviceRecord C) (frame : F) (expire t now : ℕ)
      → (run actions init).state ≡ on
      → get_elem? (run actions init).device_records i ≡ some r
      → r.device.thread ≡ alive
      → t ≢ 0
      → let reported =
          act
            (happens i (parses (record { frame = frame; has_value = true; has_scale = true }) t))
            (run actions init) in
        (get_coordinates expire now reported
          ≡ (if leb expire ((now + 2 ^ 32 - t) % 2 ^ 32) then none else some frame))
        × (get_coordinates expire now (stop_receiving reported) ≡ none)
  unfolding get_coordinates has_coordinates stop_receiving set_state
  get_coordinates_lem actions i r frame expire t now receives found lives nonzero =
      let s = run actions init in
      let active : All IsActive s.device_records =
        elim (IsSettled-cases s (run-IsSettled actions init tt)) [
          | inl (_, active) ↦ active
          | inr (stopped, _) ↦ absurd (cc (stopped, receives))
        ] in
      (
        rw (report_lem i r frame t s active found lives, get_coordinates, receives) ground
            (arith, nonzero),
        refl,
      )
