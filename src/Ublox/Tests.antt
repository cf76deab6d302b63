-- ===== src/Ublox/Tests.antt =====
-- Runs of Ublox.cpp at fixed inputs.
use tactility_halo.Base.{◌≡◌, [], ◌∷◌, some, arith, replicate}
use tactility_halo.Ublox.{Bytes, sync_1, make_packet, get_answer}
use tactility_halo.Ublox.Answers.{get_answer-make_packet}

abbrev buffer : Bytes
buffer = replicate 12 0xFF

get_answer-make_packet_example :
    get_answer 256 0x0A 0x04 sync_1 0 (0x24 ∷ (make_packet 0x0A 0x04 (7 ∷ 9 ∷ []) 2 buffer).0)
    ≡ some (7 ∷ 9 ∷ [])
get_answer-make_packet_example =
    get_answer-make_packet 256 0x0A 0x04 (7 ∷ 9 ∷ []) buffer (0x24 ∷ []) (omega arith) (omega arith)
      (omega arith) (λ e. ground (arith, e), tt)
