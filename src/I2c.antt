-- ===== src/I2c.antt =====
-- Tactility/Source/hal/i2c/I2c.cpp, as it is built for the ESP32: the ports and their states. The
-- driver of the ESP-IDF is a parameter, `C` is its `i2c_config_t`. The mutex of a port makes each
-- operation atomic. `none` is an access outside of `dataArray`.
pub mod Transfers
pub mod Cases
pub mod Immutable
pub mod States
pub mod Writes
pub mod Tests
use tactility_halo.Base.{
  ℕ, ◌==◌, String, Bool, true, false, not, List, [], ◌∷◌, Option, none, some, if◌then◌else◌,
  get_elem?, set,
}

pub data InitMode : Type 0 where
  by_tactility by_external disabled : InitMode

-- The functions of the driver that change which ports it serves; the flag is whether they return
-- `ESP_OK`.
pub record Driver (C D : Type 0) : Type 0 where
  pub is_master : C → Bool
  pub param_config : ℕ → C → D → D × Bool
  pub driver_install : ℕ → C → D → D × Bool
  pub driver_delete : ℕ → D → D × Bool

pub record Configuration (C : Type 0) : Type 0 where
  pub name : String
  pub port : ℕ
  pub init_mode : InitMode
  pub is_mutable : Bool
  pub config : C

pub record PortData (C : Type 0) : Type 0 where
  pub is_configured : Bool
  pub is_started : Bool
  pub configuration : Configuration C

-- `dataArray` and the state of the driver.
pub record Ports (C D : Type 0) : Type 0 where
  pub data_array : List (PortData C)
  pub driver : D

module _ {C D : Type 0} (driver : Driver C D) where
  -- `start` at the data of the port.
  unfoldable pub start_port : ℕ → PortData C → Ports C D → Ports C D × Bool
  start_port port entry s =
      let (configured, config_ok) = driver.param_config port entry.configuration.config s.driver in
      let (installed, install_ok) =
        driver.driver_install port entry.configuration.config configured in
      if entry.is_started
      then (s, false)
      else if not entry.is_configured
      then (s, false)
      else if not config_ok
      then (record s { driver = configured }, false)
      else if not install_ok
      then (record s { driver = installed }, false)
      else (
        record {
          data_array = set s.data_array port (record entry { is_started = true });
          driver = installed;
        },
        true,
      )

  unfoldable pub start : ℕ → Ports C D → Option (Ports C D × Bool)
  start port s = elim (get_elem? s.data_array port) [
    | none ↦ none
    | some entry ↦ some (start_port port entry s)
  ]

  -- `stop` at the data of the port.
  unfoldable pub stop_port : ℕ → PortData C → Ports C D → Ports C D × Bool
  stop_port port entry s =
      let (deleted, delete_ok) = driver.driver_delete port s.driver in
      if not entry.configuration.is_mutable
      then (s, false)
      else if not entry.is_started
      then (s, false)
      else if not delete_ok
      then (record s { driver = deleted }, false)
      else (
        record {
          data_array = set s.data_array port (record entry { is_started = false });
          driver = deleted;
        },
        true,
      )

  unfoldable pub stop : ℕ → Ports C D → Option (Ports C D × Bool)
  stop port s = elim (get_elem? s.data_array port) [
    | none ↦ none
    | some entry ↦ some (stop_port port entry s)
  ]

  -- The first loop of `init`.
  unfoldable pub init_configure :
      List (Configuration C) → List (PortData C) → Option (List (PortData C) × Bool)
  init_configure [] ports = some (ports, true)
  init_configure (configuration ∷ rest) ports = elim (driver.is_master configuration.config) [
    | false ↦ some (ports, false)
    | true ↦ elim (get_elem? ports configuration.port) [
      | none ↦ none
      | some entry ↦ init_configure rest (
          set ports configuration.port
            (record entry { configuration = configuration; is_configured = true }))
    ]
  ]

module _ {C D : Type 0} where
  -- A bus that something else has started.
  unfoldable pub init_external : ℕ → Ports C D → Option (Ports C D)
  init_external port s = elim (get_elem? s.data_array port) [
    | none ↦ none
    | some entry ↦
        some (record s { data_array = set s.data_array port (record entry { is_started = true }) })
  ]

  -- `configure` at the data of the port.
  unfoldable pub configure_port : ℕ → C → PortData C → Ports C D → Ports C D × Bool
  configure_port port config entry s =
      if entry.is_started
      then (s, false)
      else if not entry.configuration.is_mutable
      then (s, false)
      else (
        record s {
          data_array =
              set s.data_array port
                (record entry { configuration = record entry.configuration { config = config } });
        },
        true,
      )

  unfoldable pub configure : ℕ → C → Ports C D → Option (Ports C D × Bool)
  configure port config s = elim (get_elem? s.data_array port) [
    | none ↦ none
    | some entry ↦ some (configure_port port config entry s)
  ]

  unfoldable pub is_started : ℕ → Ports C D → Option Bool
  is_started port s = elim (get_elem? s.data_array port) [
    | none ↦ none
    | some entry ↦ some entry.is_started
  ]

module _ {C D : Type 0} (driver : Driver C D) where
  -- The second loop of `init`.
  unfoldable pub init_start : List (Configuration C) → Ports C D → Option (Ports C D × Bool)
  init_start [] s = some (s, true)
  init_start (config ∷ rest) s = elim config.init_mode [
    | by_tactility ↦ elim (start driver config.port s) [
      | none ↦ none
      | some (s', false) ↦ some (s', false)
      | some (s', true) ↦ init_start rest s'
    ]
    | by_external ↦ elim (init_external config.port s) [
      | none ↦ none
      | some s' ↦ init_start rest s'
    ]
    | disabled ↦ init_start rest s
  ]

  unfoldable pub init : List (Configuration C) → Ports C D → Option (Ports C D × Bool)
  init configurations s = elim (init_configure driver configurations s.data_array) [
    | none ↦ none
    | some (ports, false) ↦ some (record s { data_array = ports }, false)
    | some (ports, true) ↦ init_start configurations (record s { data_array = ports })
  ]
