-- ===== src/Gps/Records.antt =====
-- Starts and stops of the devices of the GPS service.
use tactility_halo.Base.{
  ℕ, zero, suc, ◌≡◌, refl, List, [], ◌∷◌, map, some, if◌then◌else◌, arith, All, set, get_elem?,
  some-injective, subst, ◌⊎◌, inl, inr,
}
use tactility_halo.Gps.{
  GpsDeviceRecord, State, on_pending, on, off_pending, off, erase_id, device_start, device_stop,
  subscribe_gga, subscribe_rmc, unsubscribe_gga, unsubscribe_rmc, start_gps_device, stop_gps_device,
  start_all,
}
use tactility_halo.Gps.Actions.{IsActive, IsIdle, Fits}

module _ {C : Type 0} where
  pub stop-IsIdle : (r : GpsDeviceRecord C) → IsActive r → IsIdle (stop_gps_device r)
  unfolding stop_gps_device device_stop unsubscribe_gga unsubscribe_rmc erase_id
  stop-IsIdle r active = ground (arith, active.0, active.1)

  pub restop-IsIdle : (r : GpsDeviceRecord C) → IsIdle r → IsIdle (stop_gps_device r)
  unfolding stop_gps_device device_stop unsubscribe_gga unsubscribe_rmc erase_id
  restop-IsIdle r idle = (rw (idle.0) refl, rw (idle.1) refl, refl)

  pub start-IsActive : (r : GpsDeviceRecord C) → IsIdle r → IsActive (start_gps_device r).0
  unfolding start_gps_device device_start subscribe_gga subscribe_rmc
  start-IsActive r idle = (rw (idle.2, idle.0) refl, rw (idle.2, idle.1) refl)

  pub stop_all-IsIdle :
      (records : List (GpsDeviceRecord C))
      → All IsActive records
      → All IsIdle (map stop_gps_device records)
  stop_all-IsIdle [] active = tt
  stop_all-IsIdle (r ∷ rest) active = (stop-IsIdle r active.0, stop_all-IsIdle rest active.1)

  pub restop_all-IsIdle :
      (records : List (GpsDeviceRecord C))
      → All IsIdle records
      → All IsIdle (map stop_gps_device records)
  restop_all-IsIdle [] idle = tt
  restop_all-IsIdle (r ∷ rest) idle = (restop-IsIdle r idle.0, restop_all-IsIdle rest idle.1)

  pub start_all-IsActive :
      (records : List (GpsDeviceRecord C)) → All IsIdle records → All IsActive (start_all records).0
  unfolding start_all
  start_all-IsActive [] idle = tt
  start_all-IsActive (r ∷ rest) idle = (start-IsActive r idle.0, start_all-IsActive rest idle.1)

  pub set-IsActive :
      (records : List (GpsDeviceRecord C)) (i : ℕ) (r : GpsDeviceRecord C)
      → All IsActive records
      → IsActive r
      → All IsActive (set records i r)
  set-IsActive [] i r active h = tt
  set-IsActive (x ∷ rest) zero r active h = (h, active.1)
  set-IsActive (x ∷ rest) (suc i) r active h = (active.0, set-IsActive rest i r active.1 h)

  pub get-All :
      (P : GpsDeviceRecord C → Type 0) (records : List (GpsDeviceRecord C)) (i : ℕ)
      (r : GpsDeviceRecord C)
      → All P records
      → get_elem? records i ≡ some r
      → P r
  get-All P [] i r all e = absurd (cc e)
  get-All P (x ∷ rest) zero r all e = subst P (some-injective x r e) all.0
  get-All P (x ∷ rest) (suc i) r all e = get-All P rest i r all.1 e

  pub started-Fits :
      (records : List (GpsDeviceRecord C))
      → All IsIdle records
      → Fits (if (start_all records).1 then on else off) (start_all records).0
  unfolding start_all start_gps_device
  started-Fits [] idle = tt
  started-Fits (r ∷ rest) idle = (start_all-IsActive (r ∷ rest) idle)

  pub Fits-cases :
      (state : State) (records : List (GpsDeviceRecord C))
      → Fits state records
      → ((state ≡ on) × All IsActive records) ⊎ ((state ≡ off) × All IsIdle records)
  Fits-cases on records fits = inl (refl, fits)
  Fits-cases off records fits = inr (refl, fits)
  Fits-cases on_pending records fits = elim fits [ ]
  Fits-cases off_pending records fits = elim fits [ ]
