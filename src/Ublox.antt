-- ===== src/Ublox.antt =====
-- Tactility/Source/hal/gps/Ublox.cpp: the packets of the u-blox receivers and the two functions
-- that wait for an answer. The bytes that the UART delivers in time are the input.
pub mod Packets
pub mod Answers
pub mod Acknowledgements
pub mod Tests
use tactility_halo.Base.{
  ℕ, zero, suc, ◌+◌, ◌-◌, ◌*◌, ◌%◌, Bool, true, false, ◌&&◌, List, [], ◌∷◌, ◌++◌, Option, none,
  some, ltb, leb, ◌==◌, if◌then◌else◌, length, take, drop,
}

abbrev pub Bytes : Type 0
Bytes = List ℕ

-- Writes into a buffer that is long enough.
unfoldable pub store : ℕ → Bytes → Bytes → Bytes
store offset bytes buffer = take offset buffer ++ (bytes ++ drop (offset + length bytes) buffer)

-- `CK_A` and `CK_B`
unfoldable pub sums : ℕ → ℕ → Bytes → ℕ × ℕ
sums ck_a ck_b [] = (ck_a, ck_b)
sums ck_a ck_b (x ∷ xs) = let ck_a' = (ck_a + x) % 256 in sums ck_a' ((ck_b + ck_a') % 256) xs

-- For a length that is at least 4.
unfoldable pub checksum : Bytes → ℕ → Bytes
checksum message size =
    let (ck_a, ck_b) = sums 0 0 (take (size - 4) (drop 2 message)) in
    store (size - 2) (ck_a ∷ ck_b ∷ []) message

-- The buffer after the call, and the result, which is an `uint8_t`.
unfoldable pub make_packet : ℕ → ℕ → Bytes → ℕ → Bytes → Bytes × ℕ
make_packet class_id message_id payload payload_size buffer_out =
    let header = 0xB5 ∷ 0x62 ∷ class_id ∷ message_id ∷ payload_size ∷ 0 ∷ [] in
    let with_header = store 0 header buffer_out in
    let with_zeros = store (6 + payload_size) (0 ∷ 0 ∷ []) with_header in
    let with_payload = store 6 (take payload_size payload) with_zeros in
    (checksum with_payload (payload_size + 8), (payload_size + 8) % 256)

-- `ubxFrameCounter`, by the field that it waits for.
pub data Field : Type 0 where
  sync_1 sync_2 class_field id_field length_lsb length_msb : Field

-- The cases 0 to 4 of the switch: the next field, and `needRead`.
unfoldable pub next_field : ℕ → ℕ → Field → ℕ → ℕ → Field × ℕ
next_field requested_class requested_id sync_1 need_read c =
    (if c == 0xB5 then sync_2 else sync_1, need_read)
next_field requested_class requested_id sync_2 need_read c =
    (if c == 0x62 then class_field else sync_1, need_read)
next_field requested_class requested_id class_field need_read c =
    (if c == requested_class then id_field else sync_1, need_read)
next_field requested_class requested_id id_field need_read c =
    (if c == requested_id then length_lsb else sync_1, need_read)
next_field requested_class requested_id length_lsb need_read c = (length_msb, c)
next_field requested_class requested_id length_msb need_read c = (sync_1, need_read)

-- The second `getAck`: the payload, whose length is the result. `none` is the timeout, where the
-- result is 0. `readBytes` succeeds when the bytes are there.
unfoldable pub get_answer : ℕ → ℕ → ℕ → Field → ℕ → Bytes → Option Bytes
get_answer size requested_class requested_id field need_read [] = none
get_answer size requested_class requested_id length_msb need_read (c ∷ rest) =
    let needed = need_read + c * 256 in
    let again = get_answer size requested_class requested_id sync_1 needed rest in
    if leb size needed
    then again
    else if leb needed (length rest)
    then some (take needed rest)
    else none
get_answer size requested_class requested_id field need_read (c ∷ rest) =
    let (field', need_read') = next_field requested_class requested_id field need_read c in
    get_answer size requested_class requested_id field' need_read' rest

-- `GpsResponse`, as far as it is used here.
pub data GpsResponse : Type 0 where
  no_response not_ack frame_errors ok : GpsResponse

-- "More than 100 frame errors"
abbrev pub frame_errors_text : Bytes
frame_errors_text =
    77 ∷ 111 ∷ 114 ∷ 101 ∷ 32 ∷ 116 ∷ 104 ∷ 97 ∷ 110 ∷ 32 ∷ 49 ∷ 48 ∷ 48 ∷ 32 ∷ 102 ∷ 114 ∷ 97 ∷ 109
    ∷ 101 ∷ 32 ∷ 101 ∷ 114 ∷ 114 ∷ 111 ∷ 114 ∷ 115 ∷ []

-- An element of an array; the indices below stay inside.
abbrev pub byte_at : Bytes → ℕ → ℕ
byte_at [] i = 0
byte_at (x ∷ xs) zero = x
byte_at (x ∷ xs) (suc i) = byte_at xs i

-- `buf`, with the two checksum bytes that the loops add up.
unfoldable pub expected_ack : ℕ → ℕ → Bytes
expected_ack class_id msg_id =
    let (ck_a, ck_b) = sums 0 0 (0x05 ∷ 0x01 ∷ 0x02 ∷ 0x00 ∷ class_id ∷ msg_id ∷ []) in
    0xB5 ∷ 0x62 ∷ 0x05 ∷ 0x01 ∷ 0x02 ∷ 0x00 ∷ class_id ∷ msg_id ∷ ck_a ∷ ck_b ∷ []

-- `sCounter` after a byte.
unfoldable pub error_counter : ℕ → ℕ → ℕ
error_counter b s_counter = if b == byte_at frame_errors_text s_counter then s_counter + 1 else 0

-- The loop of the first `getAck`. Each entry is one round in time: the byte that is there, if any.
unfoldable pub ack_loop : Bytes → ℕ → ℕ → List (Option ℕ) → GpsResponse
ack_loop buf ack s_counter [] = no_response
ack_loop buf ack s_counter (none ∷ rounds) =
    let later = ack_loop buf ack s_counter rounds in if ltb 9 ack then ok else later
ack_loop buf ack s_counter (some b ∷ rounds) =
    let s_counter' = error_counter b s_counter in
    let matched = ack_loop buf (ack + 1) s_counter' rounds in
    let reset = ack_loop buf 0 s_counter' rounds in
    if ltb 9 ack
    then ok
    else if s_counter' == 26
    then frame_errors
    else if b == byte_at buf ack
    then matched
    else if ack == 3 && b == 0
    then not_ack
    else reset

unfoldable pub get_ack : ℕ → ℕ → List (Option ℕ) → GpsResponse
get_ack class_id msg_id rounds = ack_loop (expected_ack class_id msg_id) 0 0 rounds
