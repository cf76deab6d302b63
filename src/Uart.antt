-- ===== src/Uart.antt =====
-- Tactility/Source/hal/uart/Uart.cpp: the registry of the ports, and `readUntil`. What a port is
-- built of (UartEsp.cpp and UartPosix.cpp) is not modelled.
pub mod Buffers
pub mod Entries
pub mod Registry
pub mod Names
pub mod Lines
pub mod Tests
use tactility_halo.Base.{
  ℕ, zero, suc, ◌+◌, ◌-◌, ◌%◌, ◌^◌, ◌==◌, ltb, String, str_eq, Bool, true, false, ◌&&◌, List, [],
  ◌∷◌, ◌++◌, Option, none, some, if◌then◌else◌, length, set,
}

-- The name stands for the whole configuration.
pub record UartEntry : Type 0 where
  pub usage_id : ℕ
  pub name : String

pub record Uarts : Type 0 where
  pub entries : List UartEntry
  pub last_uart_id : ℕ

abbrev pub unused : String → UartEntry
unused name = record { usage_id = 0; name = name }

unfoldable pub init : List String → Uarts → Uarts
init [] s = s
init (name ∷ names) s = init names (record s { entries = s.entries ++ unused name ∷ [] })

-- The first entry of the name gets the id; `none` is that there is no such entry, or that it is in
-- use.
unfoldable pub take_entry : String → ℕ → List UartEntry → Option (List UartEntry)
take_entry name id [] = none
take_entry name id (entry ∷ rest) =
    let later = take_entry name id rest in
    if str_eq entry.name name
    then (if entry.usage_id == 0 then some (record entry { usage_id = id } ∷ rest) else none)
    else elim later [ none ↦ none | some rest' ↦ some (entry ∷ rest') ]

-- The result is the id of the new `Uart`, and `none` is the null pointer. The constructor of the
-- `Uart` counts the ids on.
unfoldable pub open_uart : String → Uarts → Uarts × Option ℕ
open_uart name s =
    let id = (s.last_uart_id + 1) % 2 ^ 32 in
    elim (take_entry name id s.entries) [
      | none ↦ (s, none)
      | some entries ↦ (record { entries = entries; last_uart_id = id }, some id)
    ]

-- The first entry of the id is freed.
unfoldable pub free_entry : ℕ → List UartEntry → List UartEntry
free_entry id [] = []
free_entry id (entry ∷ rest) =
    let later = free_entry id rest in
    if entry.usage_id == id then record entry { usage_id = 0 } ∷ rest else entry ∷ later

-- Also what the destructor of a `Uart` does.
unfoldable pub close : ℕ → Uarts → Uarts
close uart_id s = record s { entries = free_entry uart_id s.entries }

-- A port that is read, and the clock: `E` is the state of both.
pub record Port (E : Type 0) : Type 0 where
  pub read_byte : ℕ → E → E × Option ℕ
  pub get_ticks : E → E × ℕ

-- A write through a pointer into the buffer; `none` is a write outside of it.
unfoldable pub put_byte : List ℕ → ℕ → ℕ → Option (List ℕ)
put_byte buffer position byte =
    if ltb position (length buffer) then some (set buffer position byte) else none

module _ {E : Type 0} (port : Port E) where
  -- One round of the loop of `readUntil` after its byte is stored and while there is room: `next`
  -- is the next round. The results are the state, the buffer and the write position.
  unfoldable pub read_until_round :
      (start_time timeout until_byte : ℕ)
      → Bool
      → (position byte : ℕ) → E
      → List ℕ
      → (ℕ → E → Option (E × List ℕ × ℕ))
      → Option (E × List ℕ × ℕ)
  read_until_round start_time timeout until_byte terminate position byte e buffer next =
      let (e', now) = port.get_ticks e in
      let elapsed = (now + 2 ^ 32 - start_time) % 2 ^ 32 in
      if byte == until_byte
      then (if terminate
          then elim (put_byte buffer (position + 1) 0) [
            | none ↦ none
            | some buffer' ↦ some (e, buffer', position + 1)
          ]
          else some (e, buffer, position))
      else if ltb ((start_time + timeout) % 2 ^ 32) now
      then some (e', buffer, position + 1)
      else next ((timeout + 2 ^ 32 - elapsed) % 2 ^ 32) e'

  -- The loop at the write position, with `room` bytes up to the limit.
  unfoldable pub read_until_loop :
      (start_time timeout until_byte : ℕ)
      → Bool
      → (room position timeout_left : ℕ) → E
      → List ℕ
      → Option (E × List ℕ × ℕ)
  read_until_loop start_time timeout until_byte terminate zero position timeout_left e buffer =
      let (e', read) = port.read_byte timeout_left e in
      elim read [
        | none ↦ some (e', buffer, position)
        | some byte ↦ elim (put_byte buffer position byte) [
          | none ↦ none
          | some buffer' ↦ some (e', buffer', position)
        ]
      ]
  read_until_loop start_time timeout until_byte terminate (suc room) position timeout_left e
        buffer =
      let (e', read) = port.read_byte timeout_left e in
      elim read [
        | none ↦ some (e', buffer, position)
        | some byte ↦ elim (put_byte buffer position byte) [
          | none ↦ none
          | some buffer' ↦
              read_until_round start_time timeout until_byte terminate position byte e' buffer'
                (λ left e''.
                  read_until_loop start_time timeout until_byte terminate room (position + 1) left
                    e'' buffer')
        ]
      ]

  -- The results are the state, the buffer and the size that is returned. Of a size 0, the limit
  -- lies in front of the buffer, which the model takes for an error.
  unfoldable pub read_until :
      (buffer_size until_byte timeout : ℕ) → Bool → E → List ℕ → Option (E × List ℕ × ℕ)
  read_until buffer_size until_byte timeout terminate e buffer =
      let (e', start_time) = port.get_ticks e in
      if buffer_size == 0
      then none
      else elim (read_until_loop start_time timeout until_byte terminate (buffer_size - 1) 0 timeout
          e' buffer) [
            | none ↦ none
            | some (e'', buffer', position) ↦
                some (e'', buffer', if terminate && ltb 0 position then position - 1 else position)
          ]
