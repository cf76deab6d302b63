-- ===== src/I2c/Tests.antt =====
-- Runs of I2c.cpp at fixed inputs. The driver is the set of the ports that it serves.
use tactility_halo.Base.{
  ℕ, zero, suc, ◌==◌, ◌≡◌, ◌⊎◌, refl, Bool, true, false, List, [], ◌∷◌, some, arith, if◌then◌else◌,
  get_elem?,
}
use tactility_halo.I2c.{
  by_tactility, by_external, Driver, Configuration, PortData, Ports, start, start_port, stop,
  stop_port, configure, configure_port, init, init_configure, init_external, init_start,
}
use tactility_halo.I2c.Cases.{Operation, configures, starts, stops, run, started, is_external}
use tactility_halo.I2c.States.{Documented, init-run}
use tactility_halo.I2c.Immutable.{run-immutable}
use tactility_halo.I2c.Transfers.{
  Request, commands, write_register_commands, write_byte, write_bytes, start_bit, stop_bit,
  master_write_register_array,
}
use tactility_halo.I2c.Writes.{last_written, tries, flatten, master_write_register_array_lem}

abbrev toggle : Bool → ℕ → (ℕ → Bool) → ℕ → Bool
toggle on p d q = if p == q then on else d q

abbrev driver : Driver Bool (ℕ → Bool)
driver = record {
  is_master = λ c. c;
  param_config = λ p c d. (d, true);
  driver_install = λ p c d. (toggle true p d, true);
  driver_delete = λ p d. (toggle false p d, true);
}

abbrev installed : (ℕ → Bool) → ℕ → Bool
installed d p = d p

driver-Documented : Documented driver installed
driver-Documented = record {
  param_config_keeps = λ p c d q. refl;
  install_installs = λ p c d q. refl;
  delete_removes = λ p d q. refl;
}

abbrev touch : Configuration Bool
touch = record {
  name = "touch";
  port = 0;
  init_mode = by_tactility;
  is_mutable = false;
  config = true;
}

abbrev grove : Configuration Bool
grove = record {
  name = "grove";
  port = 1;
  init_mode = by_external;
  is_mutable = true;
  config = true;
}

abbrev blank_port : PortData Bool
blank_port = record { is_configured = false; is_started = false; configuration = grove }

abbrev at_boot : Ports Bool (ℕ → Bool)
at_boot = record { data_array = blank_port ∷ blank_port ∷ []; driver = λ p. p == 1 }

abbrev entry_of : Bool → Configuration Bool → PortData Bool
entry_of on c = record { is_configured = true; is_started = on; configuration = c }

abbrev booted : Ports Bool (ℕ → Bool)
booted = record {
  data_array = entry_of true touch ∷ entry_of true grove ∷ [];
  driver = toggle true 0 (λ p. p == 1);
}

init_boots : init driver (touch ∷ grove ∷ []) at_boot ≡ some (booted, true)
unfolding init init_configure init_start start start_port init_external
init_boots = refl

abbrev after : Ports Bool (ℕ → Bool)
after = record {
  data_array = entry_of true touch ∷ entry_of false grove ∷ [];
  driver = toggle false 1 (toggle true 0 (λ p. p == 1));
}

abbrev calls : List (Operation Bool)
calls = stops 0 ∷ stops 1 ∷ starts 0 ∷ configures 1 true ∷ []

run_result : run driver calls booted ≡ some after
unfolding start start_port stop stop_port configure configure_port
run_result = refl

none_started : (p : ℕ) → started at_boot.data_array p ≡ false
none_started zero = refl
none_started (suc zero) = refl
none_started (suc (suc p)) = refl

external_served : (p : ℕ) → installed at_boot.driver p ≡ is_external (touch ∷ grove ∷ []) p
external_served p = ground arith

init-run_example : installed after.driver 1 ≡ started after.data_array 1
init-run_example =
    init-run driver installed driver-Documented (touch ∷ grove ∷ []) calls at_boot booted after
      none_started external_served init_boots run_result 1

run-immutable_example : get_elem? after.data_array 0 ≡ some (entry_of true touch)
run-immutable_example =
    run-immutable driver 0 (entry_of true touch) refl refl calls booted after refl run_result

-- A device of registers, which takes the writes of one register to the address 0x34.
abbrev serve : Request → (ℕ → ℕ) → (ℕ → ℕ) × Bool × List ℕ
serve
      (commands
        (start_bit ∷ write_byte a ∷ write_byte reg ∷ write_bytes (value ∷ []) ∷ stop_bit ∷ []))
      s =
    ((λ r. if reg == r then value else s r), true, [])
serve other s = (s, false, [])

abbrev blank_registers : ℕ → ℕ
blank_registers r = 0

device_stores :
    (reg value : ℕ) (s : ℕ → ℕ) (r : ℕ)
    → (serve (commands (write_register_commands 0x34 reg (value ∷ []))) s).1 ≡ true
    → (serve (commands (write_register_commands 0x34 reg (value ∷ []))) s).0 r
      ≡ (if reg == r then value else s r)
unfolding write_register_commands
device_stores reg value s r ok = refl

abbrev pairs : List (ℕ × ℕ)
pairs = (0x90, 0x1F) ∷ (0x91, 0x7) ∷ []

master_write_register_array_example :
    (master_write_register_array (λ s. true) serve 0x34 (flatten pairs) blank_registers
      ≡ some (tries (λ s. true) serve 0x34 pairs true blank_registers))
    × (((tries (λ s. true) serve 0x34 pairs true blank_registers).1 ≡ false)
        ⊎ ((r : ℕ)
            → (tries (λ s. true) serve 0x34 pairs true blank_registers).0 r
              ≡ last_written pairs r (blank_registers r)))
master_write_register_array_example =
    master_write_register_array_lem (λ s. true) serve 0x34 (λ s r. s r) device_stores pairs
      blank_registers (cc, (cc, tt))
