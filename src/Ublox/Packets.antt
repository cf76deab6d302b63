-- ===== src/Ublox/Packets.antt =====
-- The bytes that `makePacket` leaves in the buffer.
use tactility_halo.Base.{
  ℕ, ◌+◌, ◌-◌, ◌≤◌, ◌≡◌, ◌∙◌, refl, ap, sym, [], ◌∷◌, ◌++◌, arith, length, take, drop, take-append,
  drop-append, take_all, take-append-drop, append_assoc, length-append, length-take, length-drop,
  drop-drop,
}
use tactility_halo.Ublox.{Bytes, store, sums, checksum, make_packet}

-- The frame that the protocol asks for.
unfoldable pub frame : ℕ → ℕ → Bytes → Bytes
frame class_id message_id payload =
    let body = class_id ∷ message_id ∷ length payload ∷ 0 ∷ payload in
    0xB5 ∷ 0x62 ∷ (body ++ ((sums 0 0 body).0 ∷ (sums 0 0 body).1 ∷ []))

store-part :
    (offset : ℕ) (bytes front old back : Bytes)
    → offset ≡ length front
    → length bytes ≡ length old
    → store offset bytes (front ++ (old ++ back)) ≡ front ++ (bytes ++ back)
unfolding store
store-part offset bytes front old back ho hb =
    ap (λ x. x ++ (bytes ++ drop (offset + length bytes) (front ++ (old ++ back))))
      (take-append front (old ++ back) offset ho)
    ∙ ap (λ x. front ++ (bytes ++ x))
        (ap (drop (offset + length bytes)) (sym (append_assoc front old back))
          ∙ drop-append (front ++ old) back (offset + length bytes)
              (omega (arith, length-append front old)))

-- A buffer cut into the fields of a packet.
cut :
    (n : ℕ) (buffer : Bytes)
    → buffer
      ≡ take 6 buffer
        ++ (take n (drop 6 buffer) ++ (take 2 (drop n (drop 6 buffer)) ++ drop (n + 8) buffer))
cut n buffer = sym (
    ap (λ x. take 6 buffer ++ (take n (drop 6 buffer) ++ (take 2 (drop n (drop 6 buffer)) ++ x)))
      (sym (drop-drop (n + 8) 2 (n + 6) buffer (omega arith))
        ∙ ap (drop 2) (sym (drop-drop (n + 6) n 6 buffer (omega arith))))
    ∙ ap (λ x. take 6 buffer ++ (take n (drop 6 buffer) ++ x))
        (take-append-drop 2 (drop n (drop 6 buffer)))
    ∙ ap (λ x. take 6 buffer ++ x) (take-append-drop n (drop 6 buffer))
    ∙ take-append-drop 6 buffer)

checksum-frame :
    (class_id message_id : ℕ) (payload y back : Bytes)
    → length y ≡ 2
    → checksum
        ((0xB5 ∷ 0x62 ∷ class_id ∷ message_id ∷ length payload ∷ 0 ∷ [])
          ++ (payload ++ (y ++ back)))
        (length payload + 8)
      ≡ frame class_id message_id payload ++ back
unfolding checksum frame
checksum-frame class_id message_id payload y back hy =
    let n = length payload in
    let header : Bytes = 0xB5 ∷ 0x62 ∷ class_id ∷ message_id ∷ n ∷ 0 ∷ [] in
    let body : Bytes = class_id ∷ message_id ∷ n ∷ 0 ∷ payload in
    let ck : Bytes = (sums 0 0 body).0 ∷ (sums 0 0 body).1 ∷ [] in
    ap
      (λ s.
        store (n + 8 - 2) ((sums 0 0 s).0 ∷ (sums 0 0 s).1 ∷ [])
          (header ++ (payload ++ (y ++ back))))
      (take-append body (y ++ back) (n + 8 - 4) (omega arith))
    ∙ store-part (n + 8 - 2) ck (header ++ payload) y back (omega arith) (sym hy)
    ∙ ap (λ x. header ++ x) (sym (append_assoc payload ck back))

pub make_packet_lem :
    (class_id message_id : ℕ) (payload buffer : Bytes)
    → length payload + 8 ≤ length buffer
    → (make_packet class_id message_id payload (length payload) buffer).0
      ≡ frame class_id message_id payload ++ drop (length payload + 8) buffer
unfolding make_packet
make_packet_lem class_id message_id payload buffer h =
    let n = length payload in
    let header : Bytes = 0xB5 ∷ 0x62 ∷ class_id ∷ message_id ∷ n ∷ 0 ∷ [] in
    let p = take n (drop 6 buffer) in
    let y = take 2 (drop n (drop 6 buffer)) in
    let zeros : Bytes = 0 ∷ 0 ∷ [] in
    let back = drop (n + 8) buffer in
    let long6 = length-take 6 buffer in
    let left = length-drop 6 buffer in
    let long_p = length-take n (drop 6 buffer) in
    let long_y = length-take 2 (drop n (drop 6 buffer)) in
    let left' = length-drop n (drop 6 buffer) in
    ap (λ b. checksum (store 6 (take n payload) (store (6 + n) zeros (store 0 header b))) (n + 8))
      (cut n buffer)
    ∙ ap (λ b. checksum (store 6 (take n payload) (store (6 + n) zeros b)) (n + 8))
        (store-part 0 header [] (take 6 buffer) (p ++ (y ++ back)) refl (omega (arith, long6)))
    ∙ ap (λ b. checksum (store 6 (take n payload) b) (n + 8))
        (store-part (6 + n) zeros (header ++ p) y back (omega (arith, long_p, left))
          (omega (arith, long_y, left, left')))
    ∙ ap (λ t. checksum (store 6 t (header ++ (p ++ (zeros ++ back)))) (n + 8))
        (take_all n payload (omega arith))
    ∙ ap (λ b. checksum b (n + 8))
        (store-part 6 payload header p (zeros ++ back) refl (omega (arith, long_p, left)))
    ∙ checksum-frame class_id message_id payload zeros back refl
