-- ===== src/Ublox/Acknowledgements.antt =====
-- The answers that end the first `getAck`.
use tactility_halo.Base.{
  ℕ, suc, ◌+◌, ◌≤◌, ◌≡◌, ◌∙◌, refl, ap, false, List, [], ◌∷◌, ◌++◌, map, sym, append_assoc,
  append-nil, length-append, drop, Option, none, some, arith, length, ltb, ◌==◌, ==_self,
  Bool-cases, inl, inr,
}
use tactility_halo.Ublox.{
  Bytes, not_ack, ok, frame_errors_text, byte_at, error_counter, expected_ack, ack_loop, get_ack,
}
use tactility_halo.Ublox.Packets.{frame}

byte_at-append :
    (buf front rest : Bytes) (b k : ℕ)
    → buf ≡ front ++ b ∷ rest
    → k ≡ length front
    → byte_at buf k ≡ b
byte_at-append buf front rest b k is at =
    ap (λ x. byte_at x k) is ∙ ap (byte_at (front ++ b ∷ rest)) at ∙ found front
  where
    found : (f : Bytes) → byte_at (f ++ b ∷ rest) (length f) ≡ b
    found [] = refl
    found (x ∷ f) = found f

error_counter-bound : (b s : ℕ) → error_counter b s ≤ s + 1
unfolding error_counter
error_counter-bound b s = elim (Bool-cases (b == byte_at frame_errors_text s)) [
  | inl match ↦ rw match (omega arith)
  | inr other ↦ rw other (omega arith)
]

match_step :
    (buf : Bytes) (ack s b : ℕ) (rounds : List (Option ℕ))
    → ack ≤ 9
    → s ≤ ack
    → byte_at buf ack ≡ b
    → ack_loop buf ack s (some b ∷ rounds) ≡ ack_loop buf (ack + 1) (error_counter b s) rounds
unfolding ack_loop
match_step buf ack s b rounds inside few expected =
    let early : ltb 9 ack ≡ false = ground arith in
    let no_errors : (error_counter b s == 26) ≡ false = ground (arith, error_counter-bound b s) in
    rw (early, ack_loop, no_errors, expected, ==_self b)

-- Bytes that go on as expected move the loop forward.
match_all :
    (buf front rest tail : Bytes) (k s : ℕ) (rounds : List (Option ℕ))
    → buf ≡ front ++ (rest ++ tail)
    → k ≡ length front
    → k + length rest ≤ 10
    → s ≤ k
    → (n : ℕ) × (n ≤ k + length rest)
      × (ack_loop buf k s (map (λ x. some x) rest ++ rounds)
          ≡ ack_loop buf (k + length rest) n rounds)
match_all buf front [] tail k s rounds is at h few =
    (s, omega arith, ap (λ i. ack_loop buf i s rounds) {x = k} {y = k + 0} (omega arith))
match_all buf front (b ∷ rest) tail k s rounds is at h few =
    let step =
      match_step buf k s b (map (λ x. some x) rest ++ rounds) (omega arith) few
        (byte_at-append buf front (rest ++ tail) b k is at) in
    let (n, bound, later) =
      match_all buf (front ++ b ∷ []) rest tail (k + 1) (error_counter b s) rounds
        (is ∙ sym (append_assoc front (b ∷ []) (rest ++ tail)))
        (omega (arith, length-append front (b ∷ []))) (omega arith)
        (omega (arith, error_counter-bound b s)) in
    (
      n,
      omega arith,
      step
          ∙ later
          ∙ ap (λ i. ack_loop buf i n rounds) {x = k + 1 + length rest} {y = k + suc (length rest)}
              (omega arith),
    )

done_step :
    (buf : Bytes) (s : ℕ) (round : Option ℕ) (rounds : List (Option ℕ))
    → ack_loop buf 10 s (round ∷ rounds) ≡ ok
unfolding ack_loop
done_step buf s none rounds = refl
done_step buf s (some b) rounds = refl

nak_step :
    (buf : Bytes) (s : ℕ) (rounds : List (Option ℕ))
    → s ≤ 3
    → byte_at buf 3 ≡ 1
    → ack_loop buf 3 s (some 0 ∷ rounds) ≡ not_ack
unfolding ack_loop
nak_step buf s rounds few expected =
    let no_errors : (error_counter 0 s == 26) ≡ false = ground (arith, error_counter-bound 0 s) in
    rw (no_errors, ack_loop, expected)

-- The receiver acknowledges a message by a frame of class 5 and id 1 with the class and the id of
-- the message, and refuses it by one of class 5 and id 0. When such a frame arrives at once,
-- `getAck` returns Ok, one round after its last byte, or NotAck.
pub get_ack-frame :
    (class_id msg_id : ℕ) (round : Option ℕ) (rounds : List (Option ℕ))
    → (get_ack class_id msg_id
          (map (λ x. some x) (frame 5 1 (class_id ∷ msg_id ∷ [])) ++ round ∷ rounds)
        ≡ ok)
      × (get_ack class_id msg_id (map (λ x. some x) (frame 5 0 (class_id ∷ msg_id ∷ [])) ++ rounds)
          ≡ not_ack)
unfolding get_ack expected_ack frame
get_ack-frame class_id msg_id round rounds =
    let buf = expected_ack class_id msg_id in
    let (n, bound, matched) =
      match_all buf [] buf [] 0 0 (round ∷ rounds) (sym (append-nil buf)) refl (omega arith)
        (omega arith) in
    let three : Bytes = 0xB5 ∷ 0x62 ∷ 5 ∷ [] in
    let rest = drop 4 (frame 5 0 (class_id ∷ msg_id ∷ [])) in
    let (k, small, matched') =
      match_all buf [] three (drop 3 buf) 0 0 (some 0 ∷ (map (λ x. some x) rest ++ rounds)) refl
        refl (omega arith) (omega arith) in
    (
      matched ∙ done_step buf n round rounds,
      matched' ∙ nak_step buf k (map (λ x. some x) rest ++ rounds) (omega arith) refl,
    )
