-- ===== src/Tca9534/Tests.antt =====
-- Runs of TCA9534.c at fixed inputs. The chip is the byte of its configuration register, and all
-- transfers are acknowledged, or none is read.
use tactility_halo.Base.{ℕ, ◌%◌, ◌==◌, ◌≡◌, refl, true, false, ◌&&◌, arith, if◌then◌else◌}
use tactility_halo.Tca9534.{
  configuration, output, Expander, pin_of, with_pin, get_pin, set_pin, set_pin_direction,
}
use tactility_halo.Tca9534.Pins.{Stores, get_pin-set_pin, set_pin_clears}

abbrev chip : Expander ℕ
chip = record { write_reg = λ reg byte e. (byte % 256, 0); read_reg = λ reg e. (e, 0, e % 256) }

abbrev deaf_chip : Expander ℕ
deaf_chip = record { write_reg = λ reg byte e. (byte % 256, 0); read_reg = λ reg e. (e, 0x107, 0) }

abbrev held : ℕ → ℕ
held e = e % 256

chip-Stores : Stores chip configuration held
chip-Stores = record {
  is_byte = λ e. omega arith;
  read_keeps = λ e. refl;
  read_delivers = λ e ok. refl;
  write_stores = λ byte e h ok. omega arith;
}

deaf_chip-Stores : Stores deaf_chip configuration held
deaf_chip-Stores = record {
  is_byte = λ e. omega arith;
  read_keeps = λ e. refl;
  read_delivers = λ e ok. absurd (omega arith);
  write_stores = λ byte e h ok. omega arith;
}

direction_run : (set_pin_direction chip 3 output 0xFF).0 ≡ 0xF7
unfolding set_pin_direction set_pin with_pin
direction_run = refl

get_pin-set_pin_example :
    (get_pin chip configuration 4 (set_pin chip configuration false 3 0xFF).0).1
    ≡ (if 3 == 4 then false else pin_of (held 0xFF) 4)
get_pin-set_pin_example =
    get_pin-set_pin chip configuration held chip-Stores false 3 4 0xFF (omega arith) (omega arith)
      (unfold set_pin with_pin in refl) refl

set_pin_clears_example :
    pin_of (held (set_pin deaf_chip configuration true 3 0xFF).0) 4 ≡ (3 == 4 && true)
set_pin_clears_example =
    set_pin_clears deaf_chip configuration held deaf_chip-Stores true 3 4 0xFF (omega arith)
      (omega arith) (cc) refl
