-- ===== src/Wifi/Stuck.antt =====
-- The tasks of a radio that shows `On` while its driver is not initialised.
use tactility_halo.Base.{◌≡◌, ◌∙◌, ◌≢◌, inl, inr, Bool, false, none, some, arith, Bool-cases}
use tactility_halo.Wifi.{on, Driver, Wifi, publish, set_driver, set_radio_state}
use tactility_halo.Wifi.Radio.{
  dispatch_enable, disable_radio, dispatch_disable, start_scan, dispatch_scan, dispatch_connect,
  dispatch_disconnect_but_keep_active,
}
use tactility_halo.Wifi.Tasks.{Documented}

-- The radio shows `On`, its driver is not initialised, and no task is in its middle.
abbrev pub InLimbo : {E : Type 0} → (E → Bool) → Wifi E → Type 0
InLimbo initialised wifi =
    (wifi.radio_state ≡ on) × (initialised wifi.driver ≡ false) × (wifi.waiting ≡ none)

module _ {E : Type 0} (driver : Driver E) (initialised : E → Bool)
    (laws : Documented driver initialised) where
  pub enable_refused :
      (locks : Bool) (wifi : Wifi E)
      → InLimbo initialised wifi
      → dispatch_enable driver locks wifi ≡ some wifi
  unfolding dispatch_enable
  enable_refused locks wifi k = ground (arith, k.0)

  pub no_stop : (e : E) → initialised e ≡ false → (driver.stop e).1 ≡ false
  no_stop e gone = elim (Bool-cases (driver.stop e).1) [
    | inl stops ↦ absurd (ground (arith, laws.stop_needs e stops, gone))
    | inr fails ↦ fails
  ]

  pub disable_fails :
      (locks : Bool) (wifi : Wifi E)
      → InLimbo initialised wifi
      → dispatch_disable driver locks wifi ≢ none
  unfolding dispatch_disable disable_radio publish set_radio_state set_driver
  disable_fails locks wifi k e = ground (arith, k.0, no_stop wifi.driver k.1)

  pub disable-InLimbo :
      (locks : Bool) (wifi wifi' : Wifi E)
      → dispatch_disable driver locks wifi ≡ some wifi'
      → InLimbo initialised wifi
      → InLimbo initialised wifi'
  unfolding dispatch_disable disable_radio publish set_radio_state set_driver
  disable-InLimbo locks wifi wifi' e k =
      let fails = no_stop wifi.driver k.1 in
      let gone = laws.stop_keeps wifi.driver ∙ k.1 in
      (
        ground (arith, e, k.0, fails),
        ground (arith, e, k.0, k.1, fails, gone),
        ground (arith, e, k.0, k.2, fails),
      )

  pub connect-InLimbo :
      (locks : Bool) (wifi : Wifi E)
      → InLimbo initialised wifi
      → InLimbo initialised (dispatch_connect driver locks wifi)
  unfolding dispatch_connect
  connect-InLimbo locks wifi k =
      let fails = no_stop wifi.driver k.1 in
      let gone = laws.stop_keeps wifi.driver ∙ k.1 in
      (
        ground (arith, k.0, fails),
        ground (arith, k.0, k.1, fails, gone),
        ground (arith, k.0, k.2, fails),
      )

  pub disconnect-InLimbo :
      (locks : Bool) (wifi : Wifi E)
      → InLimbo initialised wifi
      → InLimbo initialised (dispatch_disconnect_but_keep_active driver locks wifi)
  unfolding dispatch_disconnect_but_keep_active set_driver
  disconnect-InLimbo locks wifi k =
      let fails = no_stop wifi.driver k.1 in
      let gone = laws.stop_keeps wifi.driver ∙ k.1 in
      (ground (arith, k.0, fails), ground (arith, k.1, fails, gone), ground (arith, k.2, fails))

  pub scan-InLimbo :
      (locks : Bool) (wifi : Wifi E)
      → InLimbo initialised wifi
      → InLimbo initialised (dispatch_scan driver locks wifi)
  unfolding dispatch_scan start_scan publish
  scan-InLimbo locks wifi k =
      let gone = laws.scan_start_keeps wifi.driver ∙ k.1 in
      (ground (arith, k.0), ground (arith, k.1, gone), ground (arith, k.2))
