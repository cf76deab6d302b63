-- ===== src/Uart/Lines.antt =====
-- `readUntil` on a line that arrives in time.
use tactility_halo.Base.{
  ℕ, zero, suc, ◌+◌, ◌-◌, ◌%◌, ◌^◌, ◌≤◌, ◌<◌, ◌==◌, ◌≡◌, ◌≢◌, ◌∙◌, refl, ap, ltb, true, false, List,
  [], ◌∷◌, ◌++◌, Option, some, arith, if◌then◌else◌, length, set, take, length-set, length-append,
  All,
}
use tactility_halo.Uart.{Port, read_until_round, read_until_loop, read_until}
use tactility_halo.Uart.Buffers.{put_byte_lem}

-- The bytes one after the other, from a position on.
abbrev pub write_from : List ℕ → ℕ → List ℕ → List ℕ
write_from buffer position [] = buffer
write_from buffer position (byte ∷ bytes) =
    write_from (set buffer position byte) (position + 1) bytes

write_from-cons :
    (x : ℕ) (buffer : List ℕ) (position : ℕ) (bytes : List ℕ)
    → write_from (x ∷ buffer) (suc position) bytes ≡ x ∷ write_from buffer position bytes
write_from-cons x buffer position [] = refl
write_from-cons x buffer position (byte ∷ bytes) =
    let step : suc position + 1 ≡ suc (position + 1) = omega arith in
    ap (λ p. write_from (x ∷ set buffer position byte) p bytes) step
    ∙ write_from-cons x (set buffer position byte) (position + 1) bytes

take-write_from :
    (bytes buffer : List ℕ)
    → length bytes ≤ length buffer
    → take (length bytes) (write_from buffer 0 bytes) ≡ bytes
take-write_from [] buffer h = refl
take-write_from (byte ∷ bytes) [] h = absurd (omega arith)
take-write_from (byte ∷ bytes) (x ∷ buffer) h =
    let one : 0 + 1 ≡ suc 0 = omega arith in
    ap (λ p. take (suc (length bytes)) (write_from (byte ∷ buffer) p bytes)) one
    ∙ ap (take (suc (length bytes))) (write_from-cons byte buffer 0 bytes)
    ∙ ap (◌∷◌ byte) (take-write_from bytes buffer (omega arith))

module _ {E : Type 0} (port : Port E) (pending : E → List ℕ)
    -- A read delivers the next byte that is pending, and a look at the clock leaves all of them.
    (reads : (left : ℕ) (e : E) (byte : ℕ) (rest : List ℕ)
      → pending e ≡ byte ∷ rest
      → ((port.read_byte left e).1 ≡ some byte) × (pending (port.read_byte left e).0 ≡ rest))
    (waits : (e : E) → pending (port.get_ticks e).0 ≡ pending e) (start_time timeout until_byte : ℕ)
    -- Whenever the clock is read, the timeout has not passed.
    (in_time : (e : E) → (port.get_ticks e).1 ≤ (start_time + timeout) % 2 ^ 32) where
  -- The outcome of the loop for a line: the position behind its end, and the rest still pending.
  record Read (r : Option (E × List ℕ × ℕ)) (buffer : List ℕ) (position : ℕ) (rest : List ℕ)
      : Type 0 where
    final : E
    result : r ≡ some (final, buffer, position)
    left_over : pending final ≡ rest

  round_end :
      (position : ℕ) (e : E) (buffer : List ℕ) (next : ℕ → E → Option (E × List ℕ × ℕ))
      → position + 1 < length buffer
      → read_until_round port start_time timeout until_byte true position until_byte e buffer next
        ≡ some (e, set buffer (position + 1) 0, position + 1)
  unfolding read_until_round
  round_end position e buffer next h =
      let self : (until_byte == until_byte) ≡ true = ground arith in
      rw (self, put_byte_lem buffer (position + 1) 0 h)

  round_on :
      (position byte : ℕ) (e : E) (buffer : List ℕ) (next : ℕ → E → Option (E × List ℕ × ℕ))
      → byte ≢ until_byte
      → read_until_round port start_time timeout until_byte true position byte e buffer next
        ≡ next
            ((timeout + 2 ^ 32 - (((port.get_ticks e).1 + 2 ^ 32 - start_time) % 2 ^ 32)) % 2 ^ 32)
            (port.get_ticks e).0
  unfolding read_until_round
  round_on position byte e buffer next h =
      let other : (byte == until_byte) ≡ false = ground arith in
      let early : ltb ((start_time + timeout) % 2 ^ 32) (port.get_ticks e).1 ≡ false =
        ground (arith, in_time e) in
      rw (other, early)

  loop_step :
      (byte : ℕ) (tail : List ℕ) (room position left : ℕ) (e : E) (buffer : List ℕ)
      → position < length buffer
      → pending e ≡ byte ∷ tail
      → read_until_loop port start_time timeout until_byte true (suc room) position left e buffer
        ≡ read_until_round port start_time timeout until_byte true position byte
            (port.read_byte left e).0
            (set buffer position byte)
            (λ left' e'.
              read_until_loop port start_time timeout until_byte true room
                (position + 1)
                left'
                e'
                (set buffer position byte))
  unfolding read_until_loop
  loop_step byte tail room position left e buffer h p =
      rw ((reads left e byte tail p).0, put_byte_lem buffer position byte h, read_until_loop)

  loop-line :
      (line rest : List ℕ) (room position left : ℕ) (e : E) (buffer : List ℕ)
      → All (λ byte. byte ≢ until_byte) line
      → length line < room
      → position + room < length buffer
      → pending e ≡ line ++ until_byte ∷ rest
      → Read
          (read_until_loop port start_time timeout until_byte true room position left e buffer)
          (write_from buffer position (line ++ until_byte ∷ 0 ∷ []))
          (position + length line + 1)
          rest
  loop-line line rest zero position left e buffer other fits inside p = absurd (omega arith)
  loop-line [] rest (suc room) position left e buffer other fits inside p =
      let (read, after) = reads left e until_byte rest p in
      let written = set buffer position until_byte in
      let room_left : position + 1 < length written =
        omega (arith, length-set buffer position until_byte) in
      record {
        final = (port.read_byte left e).0;
        result =
            loop_step until_byte rest room position left e buffer (omega arith) p
            ∙ round_end position (port.read_byte left e).0 written _ room_left
            ∙ ap (λ n. some ((port.read_byte left e).0, set written (position + 1) 0, n))
                (omega arith);
        left_over = after;
      }
  loop-line (byte ∷ line) rest (suc room) position left e buffer other fits inside p =
      let (read, after) = reads left e byte (line ++ until_byte ∷ rest) p in
      let e' = (port.read_byte left e).0 in
      let written = set buffer position byte in
      let later =
        loop-line line rest room (position + 1) _ (port.get_ticks e').0 written other.1
          (omega arith) (omega (arith, length-set buffer position byte)) (waits e' ∙ after) in
      record {
        final = later.final;
        result =
            loop_step byte (line ++ until_byte ∷ rest) room position left e buffer (omega arith) p
            ∙ round_on position byte e' written _ other.0
            ∙ later.result
            ∙ ap
                (λ n.
                  some (
                    later.final,
                    write_from written (position + 1) (line ++ until_byte ∷ 0 ∷ []),
                    n,
                  ))
                (omega arith);
        left_over = later.left_over;
      }

  read_until_ends :
      (size : ℕ) (e e' : E) (buffer buffer' : List ℕ) (n : ℕ)
      → 0 < size
      → read_until_loop port
          (port.get_ticks e).1
          timeout
          until_byte
          true
          (size - 1)
          0
          timeout
          (port.get_ticks e).0
          buffer
        ≡ some (e', buffer', 0 + n + 1)
      → read_until port size until_byte timeout true e buffer ≡ some (e', buffer', n)
  unfolding read_until
  read_until_ends size e e' buffer buffer' n h ends =
      let nonzero : (size == 0) ≡ false = ground arith in
      let counted : (if ltb 0 (0 + n + 1) then 0 + n + 1 - 1 else 0 + n + 1) ≡ n = ground arith in
      rw (nonzero, ends, counted)

  -- A line without the byte `until_byte`, that byte, and more may be pending, the timeout does not
  -- pass, and the line is shorter by 2 or more than the size, which the buffer has. Then the call
  -- puts the line, that byte and a 0 at the start of the buffer, it returns the length of the line
  -- alone, and what came behind is still pending.
  pub read_until_line :
      (line rest : List ℕ) (size : ℕ) (e : E) (buffer : List ℕ)
      → (port.get_ticks e).1 ≡ start_time
      → All (λ byte. byte ≢ until_byte) line
      → length line + 1 < size
      → size ≤ length buffer
      → pending e ≡ line ++ until_byte ∷ rest
      → (e' : E) × (buffer' : List ℕ) × (read_until port size until_byte timeout true e buffer
          ≡ some (e', buffer', length line))
        × (take (length line + 2) buffer' ≡ line ++ until_byte ∷ 0 ∷ [])
        × (pending e' ≡ rest)
  read_until_line line rest size e buffer now other fits inside p =
      let bytes = line ++ until_byte ∷ 0 ∷ [] in
      let whole : length line + 2 ≡ length bytes =
        omega (arith, length-append line (until_byte ∷ 0 ∷ [])) in
      let read =
        loop-line line rest (size - 1) 0 timeout (port.get_ticks e).0 buffer other (omega arith)
          (omega arith) (waits e ∙ p) in
      (
        read.final,
        write_from buffer 0 bytes,
        read_until_ends size e read.final buffer (write_from buffer 0 bytes) (length line)
            (omega arith)
            (ap
                (λ start.
                  read_until_loop port start timeout until_byte true (size - 1) 0 timeout
                    (port.get_ticks e).0 buffer)
                now
              ∙ read.result),
        ap (λ n. take n (write_from buffer 0 bytes)) whole
            ∙ take-write_from bytes buffer (omega (arith, whole)),
        read.left_over,
      )
