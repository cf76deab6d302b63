-- ===== src/Tca9534.antt =====
-- Drivers/TCA9534/src/TCA9534.c: the pins of the I/O expander. The I2C driver and the chip behind it
-- are parameters. The interrupt handler and its task are not modelled.
pub mod Pins
pub mod Tests
use Prim.Native.Nat.{bit_and, bit_or}
use tactility_halo.Base.{ℕ, ◌-◌, ◌^◌, ◌==◌, Bool, true, false, Option, none, some, if◌then◌else◌}

pub data Register : Type 0 where
  input_port output_port polarity_inversion configuration : Register

pub data Direction : Type 0 where
  output input : Direction

-- The transfers of one byte from and to a register. A status is the bit pattern of an `esp_err_t`,
-- 0 is `ESP_OK`. A read that fails leaves the buffer as it was.
pub record Expander (E : Type 0) : Type 0 where
  pub write_reg : Register → ℕ → E → E × ℕ
  pub read_reg : Register → E → E × ℕ × ℕ

abbrev pub is_output : Direction → Bool
is_output output = true
is_output input = false

-- `v & (1 << pin)` is not 0.
unfoldable pub pin_of : ℕ → ℕ → Bool
pin_of v pin = bit_and v (2 ^ pin) == 2 ^ pin

-- The byte with the bit of the pin set or cleared.
unfoldable pub with_pin : Bool → ℕ → ℕ → ℕ
with_pin true v pin = bit_or v (2 ^ pin)
with_pin false v pin = bit_and v (255 - 2 ^ pin)

module _ {E : Type 0} (io_exp : Expander E) where
  -- The functions that read all pins of a register; `none` is `TCA9534_ERROR`.
  unfoldable pub get_all : Register → E → E × Option ℕ
  get_all reg e =
      let (e', status, result) = io_exp.read_reg reg e in
      (e', if status == 0 then some result else none)

  -- The functions that read one pin.
  unfoldable pub get_pin : Register → ℕ → E → E × Bool
  get_pin reg io_pin e =
      let (e', result) = get_all reg e in
      (e', elim result [ none ↦ false | some v ↦ pin_of v io_pin ])

  unfoldable pub set_all_direction : Direction → E → E × ℕ
  set_all_direction properties =
      io_exp.write_reg configuration (if is_output properties then 0 else 0xFF)

  -- A read of all pins, and a write of them with one changed. The byte is 0 before the read.
  unfoldable pub set_pin : Register → Bool → ℕ → E → E × ℕ
  set_pin reg on io_pin e =
      let (e', status, read) = io_exp.read_reg reg e in
      let port_status = if status == 0 then read else 0 in
      let (e'', written) = io_exp.write_reg reg (with_pin on port_status io_pin) e' in
      (e'', bit_or status written)

  unfoldable pub set_pin_direction : ℕ → Direction → E → E × ℕ
  set_pin_direction io_pin properties =
      set_pin configuration (if is_output properties then false else true) io_pin

  unfoldable pub set_pin_output_state : ℕ → ℕ → E → E × ℕ
  set_pin_output_state io_pin state =
      set_pin output_port (if state == 0 then false else true) io_pin

  abbrev pub get_all_io_pin_input_status : E → E × Option ℕ
  get_all_io_pin_input_status = get_all input_port

  abbrev pub get_io_pin_input_status : ℕ → E → E × Bool
  get_io_pin_input_status = get_pin input_port

  abbrev pub get_all_io_pin_direction : E → E × Option ℕ
  get_all_io_pin_direction = get_all configuration

  abbrev pub get_io_pin_direction : ℕ → E → E × Bool
  get_io_pin_direction = get_pin configuration

  abbrev pub get_all_io_polarity_inversion : E → E × Option ℕ
  get_all_io_polarity_inversion = get_all polarity_inversion

  abbrev pub get_io_pin_polarity_inversion : ℕ → E → E × Bool
  get_io_pin_polarity_inversion = get_pin polarity_inversion
