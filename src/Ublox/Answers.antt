-- ===== src/Ublox/Answers.antt =====
-- `getAck` on the packets that `makePacket` builds.
use tactility_halo.Base.{
  ℕ, ◌+◌, ◌≤◌, ◌<◌, ◌≡◌, ◌≢◌, ◌∙◌, refl, ap, true, false, [], ◌∷◌, ◌++◌, some, arith, length, drop,
  All, leb, ◌==◌, ==_self, take-append, append_assoc, length-append,
}
use tactility_halo.Ublox.{
  Bytes, sync_1, class_field, id_field, length_lsb, length_msb, sums, make_packet, next_field,
  get_answer,
}
use tactility_halo.Ublox.Packets.{frame, make_packet_lem}

skip_noise :
    (size class_id id need : ℕ) (noise rest : Bytes)
    → All (λ c. c ≢ 0xB5) noise
    → get_answer size class_id id sync_1 need (noise ++ rest)
      ≡ get_answer size class_id id sync_1 need rest
unfolding get_answer next_field
skip_noise size class_id id need [] rest h = refl
skip_noise size class_id id need (c ∷ noise) rest h =
    let other : (c == 0xB5) ≡ false = ground (arith, h.0) in
    rw (other, get_answer, next_field) (skip_noise size class_id id need noise rest h.1)

read_payload :
    (size class_id id : ℕ) (payload rest : Bytes)
    → length payload < size
    → get_answer size class_id id length_msb (length payload) (0 ∷ (payload ++ rest)) ≡ some payload
unfolding get_answer
read_payload size class_id id payload rest h =
    let whole : length payload + 0 ≡ length payload = omega arith in
    let fits : leb size (length payload) ≡ false = ground arith in
    let there : leb (length payload) (length (payload ++ rest)) ≡ true =
      ground (arith, length-append payload rest) in
    rw (whole, get_answer, fits, there, take-append payload rest (length payload) refl)

class_step :
    (size class_id id need : ℕ) (rest : Bytes)
    → get_answer size class_id id class_field need (class_id ∷ rest)
      ≡ get_answer size class_id id id_field need rest
unfolding get_answer next_field
class_step size class_id id need rest = rw (==_self class_id, get_answer, next_field)

id_step :
    (size class_id id need : ℕ) (rest : Bytes)
    → get_answer size class_id id id_field need (id ∷ rest)
      ≡ get_answer size class_id id length_lsb need rest
unfolding get_answer next_field
id_step size class_id id need rest = rw (==_self id, get_answer, next_field)

get_answer-frame :
    (size class_id id need : ℕ) (payload rest : Bytes)
    → length payload < size
    → get_answer size class_id id sync_1 need (frame class_id id payload ++ rest) ≡ some payload
unfolding get_answer next_field frame
get_answer-frame size class_id id need payload rest h =
    let body : Bytes = class_id ∷ id ∷ length payload ∷ 0 ∷ payload in
    let ck : Bytes = (sums 0 0 body).0 ∷ (sums 0 0 body).1 ∷ [] in
    class_step size class_id id need (id ∷ length payload ∷ 0 ∷ ((payload ++ ck) ++ rest))
    ∙ id_step size class_id id need (length payload ∷ 0 ∷ ((payload ++ ck) ++ rest))
    ∙ ap (λ x. get_answer size class_id id length_msb (length payload) (0 ∷ x))
        (append_assoc payload ck rest)
    ∙ read_payload size class_id id payload (ck ++ rest) h

-- A packet that `makePacket` builds is found in the received bytes behind any bytes without the
-- first sync byte, and `getAck` returns its payload. The buffer of the packet is long enough,
-- and the payload is shorter than 256 bytes and than the buffer of the receiver.
pub get_answer-make_packet :
    (size class_id id : ℕ) (payload buffer noise : Bytes)
    → length payload + 8 ≤ length buffer
    → length payload < size
    → length payload < 256
    → All (λ c. c ≢ 0xB5) noise
    → get_answer size class_id id sync_1 0
        (noise ++ (make_packet class_id id payload (length payload) buffer).0)
      ≡ some payload
get_answer-make_packet size class_id id payload buffer noise h fits byte clean =
    ap (λ x. get_answer size class_id id sync_1 0 (noise ++ x))
      (make_packet_lem class_id id payload buffer h)
    ∙ skip_noise size class_id id 0 noise
        (frame class_id id payload ++ drop (length payload + 8) buffer) clean
    ∙ get_answer-frame size class_id id 0 payload (drop (length payload + 8) buffer) fits
