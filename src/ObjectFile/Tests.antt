-- ===== src/ObjectFile/Tests.antt =====
-- Runs of ObjectFile.cpp at fixed inputs.
use tactility_halo.Base.{◌≡◌, refl, true, false, [], ◌∷◌, none, some, arith}
use tactility_halo.ObjectFile.{Bytes}
use tactility_halo.ObjectFile.Clients.{read_session, write_session}
use tactility_halo.ObjectFile.Sessions.{closed_writer}
use tactility_halo.ObjectFile.RoundTrip.{read-write, read-append}

abbrev first : Bytes
first = 1 ∷ 2 ∷ []

abbrev second : Bytes
second = 3 ∷ 4 ∷ []

read-write_example :
    read_session 2 (write_session (closed_writer 2 5 false 0) none (first ∷ second ∷ [])).1
    ≡ some (5, first ∷ second ∷ [])
read-write_example =
    read-write 2 5 (first ∷ second ∷ []) (refl, (refl, tt)) (omega arith) (omega arith)
      (omega arith) (omega arith)

read-append_example :
    read_session 2
      (write_session
        (closed_writer 2 5 true 0)
        (write_session (closed_writer 2 5 false 0) none (first ∷ [])).1
        (second ∷ [])).1
    ≡ some (5, first ∷ second ∷ [])
read-append_example =
    read-append 2 5 (first ∷ []) (second ∷ []) (refl, tt) (refl, tt) (omega arith) (omega arith)
      (omega arith) (omega arith)
