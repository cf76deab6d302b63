-- ===== src/I2c/Transfers.antt =====
-- The transfers of I2c.cpp. The bus is a parameter: a transfer is a call of the driver, as data, and
-- `S` is the state of all that is behind it. `locks` is whether the mutex of the port is free in
-- time.
use tactility_halo.Base.{
  ℕ, ◌+◌, ◌-◌, ◌*◌, ◌%◌, ◌^◌, ◌==◌, Bool, true, false, ◌&&◌, List, [], ◌∷◌, ◌++◌, Option, none,
  some, ltb, if◌then◌else◌,
}

-- The entries of an `i2c_cmd_handle_t`.
pub data Command : Type 0 where
  start_bit : Command
  write_byte : ℕ → Command
  write_bytes : List ℕ → Command
  -- a read of so many bytes, each acknowledged
  read_bytes : ℕ → Command
  -- a read of one byte, which is not acknowledged
  read_byte : Command
  stop_bit : Command

-- The calls of the driver.
pub data Request : Type 0 where
  read_from_device : ℕ → ℕ → Request
  write_to_device : ℕ → List ℕ → Request
  write_read_device : ℕ → List ℕ → ℕ → Request
  commands : List Command → Request

-- The bus: what the driver makes of a request, whether it returns `ESP_OK`, and what was read.
abbrev pub Bus : Type 0 → Type 0
Bus S = Request → S → S × Bool × List ℕ

unfoldable pub read_register_commands : ℕ → ℕ → ℕ → List Command
read_register_commands address reg data_size =
    start_bit
    ∷ write_byte (address * 2 % 2 ^ 8)
    ∷ write_bytes (reg ∷ [])
    ∷ start_bit
    ∷ write_byte ((address * 2 + 1) % 2 ^ 8)
    ∷ ((if ltb 1 data_size then read_bytes (data_size - 1) ∷ [] else [])
        ++ read_byte ∷ stop_bit ∷ [])

unfoldable pub write_register_commands : ℕ → ℕ → List ℕ → List Command
write_register_commands address reg bytes =
    start_bit
    ∷ write_byte (address * 2 % 2 ^ 8)
    ∷ write_byte reg
    ∷ write_bytes bytes
    ∷ stop_bit
    ∷ []

module _ {S : Type 0} (locks : S → Bool) (bus : Bus S) where
  unfoldable pub transfer : Request → S → S × Bool × List ℕ
  transfer request s = if locks s then bus request s else (s, false, [])

  unfoldable pub master_read : ℕ → ℕ → S → S × Bool × List ℕ
  master_read address data_size = transfer (read_from_device address data_size)

  -- `none` is a write in front of the buffer.
  unfoldable pub master_read_register : ℕ → ℕ → ℕ → S → Option (S × Bool × List ℕ)
  master_read_register address reg data_size s =
      if data_size == 0
      then none
      else some (transfer (commands (read_register_commands address reg data_size)) s)

  unfoldable pub master_write : ℕ → List ℕ → S → S × Bool × List ℕ
  master_write address bytes = transfer (write_to_device address bytes)

  -- `none` is the failed check of the register.
  unfoldable pub master_write_register : ℕ → ℕ → List ℕ → S → Option (S × Bool × List ℕ)
  master_write_register address reg bytes s =
      if reg == 0
      then none
      else some (transfer (commands (write_register_commands address reg bytes)) s)

  -- The loop of `masterWriteRegisterArray`, which goes over pairs of a register and a value. `none`
  -- is a failed check of a register, or the failed assertion on an odd size.
  unfoldable pub write_array_loop : ℕ → List ℕ → Bool → S → Option (S × Bool)
  write_array_loop address [] result s = some (s, result)
  write_array_loop address (reg ∷ []) result s = none
  write_array_loop address (reg ∷ value ∷ rest) result s =
      elim (master_write_register address reg (value ∷ []) s) [
        | none ↦ none
        | some (s', written, _) ↦ write_array_loop address rest (result && written) s'
      ]

  unfoldable pub master_write_register_array : ℕ → List ℕ → S → Option (S × Bool)
  master_write_register_array address bytes = write_array_loop address bytes true

  unfoldable pub master_write_read : ℕ → List ℕ → ℕ → S → S × Bool × List ℕ
  master_write_read address bytes read_size = transfer (write_read_device address bytes read_size)

  unfoldable pub master_has_device_at_address : ℕ → S → S × Bool × List ℕ
  master_has_device_at_address address = transfer (write_to_device address (0 ∷ 0 ∷ []))
