-- ===== src/Uart/Buffers.antt =====
-- Where `readUntil` writes.
use tactility_halo.Base.{
  ℕ, zero, suc, ◌+◌, ◌-◌, ◌%◌, ◌^◌, ◌≤◌, ◌<◌, ◌==◌, ◌≡◌, ◌∙◌, refl, inl, inr, ltb, Bool, false,
  ◌&&◌, List, [], ◌∷◌, Option, none, some, arith, if◌then◌else◌, length, set, drop, length-set,
  Bool-cases, Option-cases,
}
use tactility_halo.Uart.{Port, put_byte, read_until_round, read_until_loop, read_until}

pub put_byte_lem :
    (buffer : List ℕ) (i byte : ℕ)
    → i < length buffer
    → put_byte buffer i byte ≡ some (set buffer i byte)
unfolding put_byte
put_byte_lem buffer i byte h = ground arith

drop-set :
    (k i : ℕ) (buffer : List ℕ) (byte : ℕ) → i < k → drop k (set buffer i byte) ≡ drop k buffer
drop-set k i [] byte h = refl
drop-set zero i (x ∷ xs) byte h = absurd (omega arith)
drop-set (suc k) zero (x ∷ xs) byte h = refl
drop-set (suc k) (suc i) (x ∷ xs) byte h = drop-set k i xs byte (omega arith)

-- An outcome without an error: the position is at most `bound`, the buffer has kept its size, and
-- what lies behind its first `size` bytes.
abbrev pub Within : {E : Type 0} → (size bound : ℕ) → List ℕ → Option (E × List ℕ × ℕ) → Type 0
Within size bound buffer none = ⊥
Within size bound buffer (some (e, buffer', position)) =
    (position ≤ bound) × (length buffer' ≡ length buffer) × (drop size buffer' ≡ drop size buffer)

module _ {E : Type 0} (size : ℕ) where
  Within-mono :
      (bound bound' : ℕ) (buffer buffer' : List ℕ) (r : Option (E × List ℕ × ℕ))
      → bound ≤ bound'
      → length buffer ≡ length buffer'
      → drop size buffer ≡ drop size buffer'
      → Within size bound buffer r
      → Within size bound' buffer' r
  Within-mono bound bound' buffer buffer' none h l d w = w
  Within-mono bound bound' buffer buffer' (some (e, b, n)) h l d w = (omega arith, w.1 ∙ l, w.2 ∙ d)

  Within-cases :
      (bound : ℕ) (buffer : List ℕ) (r : Option (E × List ℕ × ℕ))
      → Within size bound buffer r
      → (e' : E) × (buffer' : List ℕ) × (n : ℕ) × (r ≡ some (e', buffer', n))
        × (n ≤ bound)
        × (length buffer' ≡ length buffer)
        × (drop size buffer' ≡ drop size buffer)
  Within-cases bound buffer none w = absurd w
  Within-cases bound buffer (some (e, b, n)) w = (e, b, n, refl, w.0, w.1, w.2)

  module _ (port : Port E) (start_time timeout until_byte : ℕ) (terminate : Bool) where
    read_until_round-Within :
        (bound position byte : ℕ) (e : E) (buffer : List ℕ) (next : ℕ → E → Option (E × List ℕ × ℕ))
        → position < bound
        → bound < size
        → size ≤ length buffer
        → ((left : ℕ) (e' : E) → Within size bound buffer (next left e'))
        → Within size bound buffer (
            read_until_round port start_time timeout until_byte terminate position byte e buffer
              next)
    unfolding read_until_round
    read_until_round-Within bound position byte e buffer next room below fits continues =
        elim (Bool-cases (byte == until_byte)) [
          | inl last ↦ elim (Bool-cases terminate) [
            | inl ends ↦
                rw (last, ends, put_byte_lem buffer (position + 1) 0 (omega arith))
                  (
                    omega arith,
                    length-set buffer (position + 1) 0,
                    drop-set size (position + 1) buffer 0 (omega arith),
                  )
            | inr plain ↦ rw (last, plain) (omega arith, refl, refl)
          ]
          | inr more ↦
              elim (Bool-cases (ltb ((start_time + timeout) % 2 ^ 32) (port.get_ticks e).1)) [
                | inl late ↦ rw (more, late) (omega arith, refl, refl)
                | inr early ↦ rw (more, early) (continues _ _)
              ]
        ]

    read_until_loop-Within :
        (room position left : ℕ) (e : E) (buffer : List ℕ)
        → position + room < size
        → size ≤ length buffer
        → Within size (position + room) buffer (
            read_until_loop port start_time timeout until_byte terminate room position left e
              buffer)
    unfolding read_until_loop
    read_until_loop-Within zero position left e buffer below fits =
        elim (Option-cases (port.read_byte left e).1) [
          | inl nothing ↦ rw (nothing, Within) (omega arith, refl, refl)
          | inr (byte, read) ↦
              rw (read, put_byte_lem buffer position byte (omega arith), Within)
                (
                  omega arith,
                  length-set buffer position byte,
                  drop-set size position buffer byte (omega arith),
                )
        ]
    read_until_loop-Within (suc room) position left e buffer below fits =
        elim (Option-cases (port.read_byte left e).1) [
          | inl nothing ↦ rw (nothing, Within) (omega arith, refl, refl)
          | inr (byte, read) ↦
              let written = set buffer position byte in
              let same_length : length written ≡ length buffer = length-set buffer position byte in
              let same_rest : drop size written ≡ drop size buffer =
                drop-set size position buffer byte (omega arith) in
              rw (read, put_byte_lem buffer position byte (omega arith), Within)
                (Within-mono (position + suc room) (position + suc room) written buffer _
                  (omega arith) same_length same_rest
                  (read_until_round-Within (position + suc room) position byte
                    (port.read_byte left e).0 written _ (omega arith) (omega arith) (omega arith)
                    (λ left' e'.
                      Within-mono (position + 1 + room) (position + suc room) written written _
                        (omega arith) refl refl
                        (read_until_loop-Within room (position + 1) left' e' written (omega arith)
                          (omega arith)))))
        ]

  -- Into a buffer that has the size, which is not 0, every call returns: it writes only the first
  -- `buffer_size` bytes, and it returns less than that size.
  pub read_until_bounds :
      (port : Port E) (until_byte timeout : ℕ) (terminate : Bool) (e : E) (buffer : List ℕ)
      → 0 < size
      → size ≤ length buffer
      → (e' : E) × (buffer' : List ℕ) × (returned : ℕ) × (read_until port size until_byte timeout
            terminate e buffer
          ≡ some (e', buffer', returned))
        × (returned < size)
        × (length buffer' ≡ length buffer)
        × (drop size buffer' ≡ drop size buffer)
  unfolding read_until
  read_until_bounds port until_byte timeout terminate e buffer h fits =
      let (e0, start_time) = port.get_ticks e in
      let within =
        read_until_loop-Within port start_time timeout until_byte terminate (size - 1) 0 timeout e0
          buffer (omega arith) fits in
      let (e', buffer', n, ends, below, same, rest) =
        Within-cases (0 + (size - 1)) buffer _ within in
      let nonzero : (size == 0) ≡ false = ground arith in
      (
        e',
        buffer',
        if terminate && ltb 0 n then n - 1 else n,
        rw (nonzero, ends),
        ground arith,
        same,
        rest,
      )
