-- ===== src/Wifi/Safety.antt =====
-- Histories of the Wi-Fi service and its checks.
use tactility_halo.Base.{◌≡◌, Bool, true, false, ◌||◌, not, List, Option, some, ◌++◌}
use tactility_halo.Wifi.{Driver, Wifi}
use tactility_halo.Wifi.Runs.{Action, run}
use tactility_halo.Wifi.Tasks.{Documented}

module _ {E : Type 0} (driver : Driver E) where
  -- `dispatchEnable` cannot register the two handlers of the events.
  abbrev pub LacksHandlers : Wifi E → Type 0
  LacksHandlers wifi = (driver.register_handlers (driver.init wifi.driver).0).1 ≡ false

  -- A part of a history after which the registration fails.
  pub record Exhausted (actions : List Action) (wifi : Wifi E) : Type 0 where
    pub before : List Action
    pub after : List Action
    pub reached : Wifi E
    pub parts : actions ≡ before ++ after
    pub ran : run driver before wifi ≡ some reached
    pub lacks : LacksHandlers reached

module _ {E : Type 0} (driver : Driver E) (initialised : E → Bool)
    (laws : Documented driver initialised) where
  abbrev IsSafe : Wifi E → Type 0
  IsSafe wifi = (not (initialised wifi.driver) || wifi.netif) ≡ true

  -- An outcome that is no failed check, and is safe again.
  abbrev Passes : Option (Wifi E) → Type 0
  Passes o = (wifi' : Wifi E) × (o ≡ some wifi') × IsSafe wifi'
