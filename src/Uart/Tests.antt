-- ===== src/Uart/Tests.antt =====
-- Runs of Uart.cpp at fixed inputs. The state of a port is the list of the bytes that wait in it,
-- and its clock stands still.
use tactility_halo.Base.{
  ℕ, ◌<◌, ◌≡◌, refl, true, inl, List, [], ◌∷◌, Option, none, some, arith, length, drop, take,
}
use tactility_halo.Uart.{
  Uarts, unused, init, take_entry, open_uart, free_entry, close, Port, put_byte, read_until_round,
  read_until_loop, read_until,
}
use tactility_halo.Uart.Registry.{is_name}
use tactility_halo.Uart.Names.{
  Holders, Operation, opens, closes, run, run_table, Represents, run-run_table,
}
use tactility_halo.Uart.Buffers.{read_until_bounds}
use tactility_halo.Uart.Lines.{read_until_line}

abbrev no_uarts : Uarts
no_uarts = record { entries = []; last_uart_id = 0 }

abbrev two_uarts : Uarts
two_uarts = record { entries = unused "gps" ∷ unused "grove" ∷ []; last_uart_id = 0 }

init_two : init ("gps" ∷ "grove" ∷ []) no_uarts ≡ two_uarts
unfolding init
init_two = refl

abbrev calls : List Operation
calls = opens "gps" ∷ opens "gps" ∷ opens "usb" ∷ closes 1 ∷ opens "gps" ∷ []

run_result : run calls two_uarts ≡ some 1 ∷ none ∷ none ∷ some 2 ∷ []
unfolding open_uart take_entry close free_entry
run_result = refl

abbrev nobody : Holders
nobody = record { held = λ n. none; last = 0 }

two_uarts-Represents : Represents (is_name two_uarts.entries) two_uarts nobody
two_uarts-Represents = record {
  valid = record { below = omega arith; distinct = (inl refl, (inl refl, tt)) };
  names = λ n. refl;
  holders = λ n. ground arith;
  last = refl;
}

run-run_table_example : run calls two_uarts ≡ run_table (is_name two_uarts.entries) calls nobody
run-run_table_example =
    run-run_table (is_name two_uarts.entries) calls two_uarts nobody (omega arith)
      two_uarts-Represents

abbrev next_byte : List ℕ → List ℕ × Option ℕ
next_byte [] = ([], none)
next_byte (byte ∷ rest) = (rest, some byte)

abbrev wire : Port (List ℕ)
wire = record { read_byte = λ left e. next_byte e; get_ticks = λ e. (e, 5) }

read_until_run :
    read_until wire 8 b'.' 100 true
      (b'o' ∷ b'k' ∷ b'.' ∷ b'x' ∷ [])
      (1 ∷ 1 ∷ 1 ∷ 1 ∷ 1 ∷ 1 ∷ 1 ∷ 1 ∷ [])
    ≡ some (b'x' ∷ [], b'o' ∷ b'k' ∷ b'.' ∷ 0 ∷ 1 ∷ 1 ∷ 1 ∷ 1 ∷ [], 2)
unfolding read_until read_until_loop read_until_round put_byte
read_until_run = refl

-- A byte that does not fit is taken from the port and is not part of the result.
read_until_full :
    read_until wire 2 b'.' 100 true (b'o' ∷ b'k' ∷ b'.' ∷ []) (1 ∷ 1 ∷ [])
    ≡ some (b'.' ∷ [], b'o' ∷ b'k' ∷ [], 0)
unfolding read_until read_until_loop read_until_round put_byte
read_until_full = refl

abbrev blank_buffer : List ℕ
blank_buffer = 1 ∷ 1 ∷ 1 ∷ 1 ∷ 1 ∷ []

read_until_bounds_example :
    (e' : List ℕ) × (buffer' : List ℕ) × (returned : ℕ) × (read_until wire 3 b'.' 100 true
        (b'o' ∷ b'k' ∷ b'!' ∷ b'.' ∷ [])
        blank_buffer
      ≡ some (e', buffer', returned))
    × (returned < 3)
    × (length buffer' ≡ length blank_buffer)
    × (drop 3 buffer' ≡ drop 3 blank_buffer)
read_until_bounds_example =
    read_until_bounds 3 wire b'.' 100 true (b'o' ∷ b'k' ∷ b'!' ∷ b'.' ∷ []) blank_buffer
      (omega arith) (omega arith)

wire_reads :
    (left : ℕ) (e : List ℕ) (byte : ℕ) (rest : List ℕ)
    → e ≡ byte ∷ rest
    → ((wire.read_byte left e).1 ≡ some byte) × ((wire.read_byte left e).0 ≡ rest)
wire_reads left [] byte rest p = absurd (ground arith)
wire_reads left (b ∷ e) byte rest p = (ground arith, ground arith)

read_until_line_example :
    (e' : List ℕ) × (buffer' : List ℕ) × (read_until wire 5 b'.' 100 true
        (b'o' ∷ b'k' ∷ b'.' ∷ b'x' ∷ [])
        blank_buffer
      ≡ some (e', buffer', 2))
    × (take 4 buffer' ≡ b'o' ∷ b'k' ∷ b'.' ∷ 0 ∷ [])
    × (e' ≡ b'x' ∷ [])
read_until_line_example =
    read_until_line wire (λ e. e) wire_reads (λ e. refl) 5 100 b'.' (λ e. omega arith)
      (b'o' ∷ b'k' ∷ []) (b'x' ∷ []) 5 (b'o' ∷ b'k' ∷ b'.' ∷ b'x' ∷ []) blank_buffer refl
      (cc, (cc, tt)) (omega arith) (omega arith) refl
