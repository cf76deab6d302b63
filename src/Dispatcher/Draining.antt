-- ===== src/Dispatcher/Draining.antt =====
-- A call of `consume` while no other thread touches the queue.
use tactility_halo.Base.{
  ℕ, suc, ◌+◌, ◌%◌, ◌^◌, ◌<◌, ◌≤◌, ◌≡◌, ◌∙◌, ap, Bool, true, false, List, [], ◌∷◌, Option, none,
  some, arith, length, if◌then◌else◌,
}
use tactility_halo.Dispatcher.{
  Phase, waiting, woken, looping, calling, Dispatcher, consume_wait, consume_clear, consume_take,
  consume_called,
}

-- What a call of `consume` leaves: the state, the functions in the order of their calls, and the
-- result.
abbrev pub Outcome : Type 0 → Type 0
Outcome C = Option (Dispatcher C × List C × ℕ)

abbrev prepend : {C : Type 0} → C → Outcome C → Outcome C
prepend function none = none
prepend function (some (d, called, consumed)) = some (d, function ∷ called, consumed)

-- The loop, on a list that says for each round whether the lock succeeds. `none` means that the
-- list ended within the loop.
pub consume_loop : {C : Type 0} → List Bool → ℕ → Dispatcher C → Outcome C
consume_loop [] consumed d = none
consume_loop (locks ∷ rounds) consumed d =
    let taken = consume_take locks consumed d d.queue in
    elim taken.phase [
      | waiting ↦ some (taken, [], consumed)
      | woken ↦ none
      | looping consumed' ↦ consume_loop rounds consumed' taken
      | calling function processing consumed' ↦
          let called = consume_called processing consumed' taken in
          let rest = consume_loop rounds consumed' called in
          prepend function (if processing then rest else some (called, [], consumed'))
    ]

pub consume : {C : Type 0} → List Bool → Dispatcher C → Outcome C
consume rounds d =
    let rest = consume_loop rounds 0 (consume_clear (consume_wait d)) in
    if d.flag then rest else some (d, [], 0)

abbrev pub successes : List Bool → ℕ
successes [] = 0
successes (true ∷ rounds) = suc (successes rounds)
successes (false ∷ rounds) = successes rounds

abbrev on_loop : {C : Type 0} → List C → Bool → ℕ → Phase C → Dispatcher C
on_loop queue flag signalling phase = record {
  queue = queue;
  flag = flag;
  signalling = signalling;
  phase = phase;
}

consume_loop_lem :
    {C : Type 0} (rounds : List Bool) (queue : List C) (n signalling : ℕ) (flag : Bool)
    → 0 < successes rounds
    → length queue ≤ successes rounds
    → n + length queue < 2 ^ 32
    → consume_loop rounds n (on_loop queue flag signalling (looping n))
      ≡ some (on_loop [] flag signalling waiting, queue, n + length queue)
unfolding consume_loop consume_take consume_called
consume_loop_lem [] queue n signalling flag h enough small = absurd (omega arith)
consume_loop_lem (false ∷ rounds) queue n signalling flag h enough small =
    consume_loop_lem rounds queue n signalling flag h enough small
consume_loop_lem (true ∷ rounds) [] n signalling flag h enough small =
    ap (λ k. some (on_loop [] flag signalling waiting, [], k)) {x = n} {y = n + 0} (omega arith)
consume_loop_lem (true ∷ rounds) (f ∷ []) n signalling flag h enough small =
    ap (λ k. some (on_loop [] flag signalling waiting, f ∷ [], k)) {x = (n + 1) % 2 ^ 32}
      {y = n + 1} (omega arith)
consume_loop_lem (true ∷ rounds) (f ∷ (g ∷ queue)) n signalling flag h enough small =
    let whole : (n + 1) % 2 ^ 32 ≡ n + 1 = omega arith in
    ap (λ k. prepend f (consume_loop rounds k (on_loop (g ∷ queue) flag signalling (looping k))))
      whole
    ∙ ap (prepend f) (
        consume_loop_lem rounds (g ∷ queue) (n + 1) signalling flag (omega arith) (omega arith)
          (omega arith))
    ∙ ap (λ k. some (on_loop [] flag signalling waiting, f ∷ (g ∷ queue), k))
        {x = n + 1 + length (g ∷ queue)} {y = n + length (f ∷ (g ∷ queue))} (omega arith)

-- When the flag is set and nobody else touches the queue, `consume` calls every queued function
-- once, in order, returns their number and leaves the queue empty and the flag cleared, as soon as
-- its attempts to take the lock succeed once for every function, and at least once. The queue has
-- less than 2^32 entries.
pub consume_drains :
    {C : Type 0} (rounds : List Bool) (queue : List C) (signalling : ℕ)
    → 0 < successes rounds
    → length queue ≤ successes rounds
    → length queue < 2 ^ 32
    → consume rounds
        (record { queue = queue; flag = true; signalling = signalling; phase = waiting })
      ≡ some (
        record { queue = []; flag = false; signalling = signalling; phase = waiting },
        queue,
        length queue,
      )
unfolding consume consume_wait consume_clear
consume_drains rounds queue signalling h enough small =
    consume_loop_lem rounds queue 0 signalling false h enough (omega arith)
    ∙ ap (λ k. some (on_loop [] false signalling waiting, queue, k)) {x = 0 + length queue}
        {y = length queue} (omega arith)
