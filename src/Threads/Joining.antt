-- ===== src/Threads/Joining.antt =====
-- The timeout of Thread::join.
use tactility_halo.Base.{
  ℕ, zero, suc, ◌+◌, ◌-◌, ◌%◌, ◌^◌, ◌≤◌, ◌<◌, ltb, ◌≡◌, refl, Bool, true, false, some, arith, inl,
  inr, ◌⊎◌, Bool-cases,
}
use tactility_halo.Threads.{Surroundings, join_loop, join}

-- The difference of two readings of a clock of 32 bits.
elapsed :
    (from to : ℕ)
    → from ≤ to
    → to < from + 2 ^ 32
    → (to % 2 ^ 32 + 2 ^ 32 - from % 2 ^ 32) % 2 ^ 32 ≡ to - from
elapsed from to h k = omega arith

beyond : (timeout from to d : ℕ) → d ≡ to - from → ltb timeout d ≡ true → from + timeout < to
beyond timeout from to d e h = ground arith

within : (timeout from to d : ℕ) → d ≡ to - from → ltb timeout d ≡ false → to ≤ from + timeout
within timeout from to d e h = ground arith

module _ {E : Type 0} (around : Surroundings E) where
  -- `time` is a clock that does not wrap around, and a pause ends at most `late` ticks late.
  pub record Clocks (late : ℕ) : Type 0 where
    pub time : E → ℕ
    pub ticks : (e : E) → around.get_ticks e ≡ time e % 2 ^ 32
    pub waits : (pause : ℕ) (e : E) → time e + pause ≤ time (around.delay_ticks pause e)
    pub in_time : (pause : ℕ) (e : E) → time (around.delay_ticks pause e) ≤ time e + pause + late

  module _ (late : ℕ) (clocks : Clocks late) where
    elapsed_ticks :
        (start e : E)
        → clocks.time start ≤ clocks.time e
        → clocks.time e < clocks.time start + 2 ^ 32
        → (around.get_ticks e + 2 ^ 32 - around.get_ticks start) % 2 ^ 32
          ≡ clocks.time e - clocks.time start
    elapsed_ticks start e h k = rw (clocks.ticks e, clocks.ticks start) (elapsed _ _ h k)

    abbrev pub Ends : (timeout poll_interval : ℕ) → E → E × Bool → Type 0
    Ends timeout poll e r =
        ((r.1 ≡ true)
          × (around.has_handle r.0 ≡ false)
          × (clocks.time r.0 ≤ clocks.time e + timeout))
        ⊎ ((r.1 ≡ false)
            × (clocks.time e + timeout < clocks.time r.0)
            × (clocks.time r.0 ≤ clocks.time e + timeout + poll + late))

    loop-Ends :
        (fuel timeout poll : ℕ) (start e : E)
        → 1 ≤ poll
        → timeout + poll + late < 2 ^ 32
        → clocks.time start ≤ clocks.time e
        → clocks.time e ≤ clocks.time start + timeout
        → clocks.time start + timeout < clocks.time e + fuel
        → (r : E × Bool) × (join_loop around fuel timeout poll (around.get_ticks start) e ≡ some r)
          × Ends timeout poll start r
    unfolding join_loop
    loop-Ends zero timeout poll start e p f low high enough = absurd (omega arith)
    loop-Ends (suc fuel) timeout poll start e p f low high enough =
        let e' = around.delay_ticks poll e in
        let waited = clocks.waits poll e in
        let not_late = clocks.in_time poll e in
        let passed = elapsed_ticks start e' (omega arith) (omega arith) in
        elim (Bool-cases (around.has_handle e)) [
          | inr gone ↦ ((e, true), rw gone, inl (refl, gone, high))
          | inl held ↦
              elim (Bool-cases
                (ltb timeout ((around.get_ticks e' + 2 ^ 32 - around.get_ticks start) % 2 ^ 32))) [
                  | inl late_now ↦ (
                    (e', false),
                    rw (held, late_now),
                    inr (refl, beyond _ _ _ _ passed late_now, omega arith),
                  )
                  | inr goes_on ↦
                      let (r, same, ends) =
                        loop-Ends fuel timeout poll start e' p f (omega arith)
                          (within _ _ _ _ passed goes_on) (omega arith) in
                      (r, rw (held, goes_on) same, ends)
                ]
        ]

    -- When the clock does not go round in the time, `join` returns: true for a Thread that has no
    -- task any more, within the timeout, and false when more than the timeout has passed, at most one
    -- interval and one delay of a pause later.
    pub join_lem :
        (timeout poll : ℕ) (e : E)
        → 1 ≤ poll
        → timeout + poll + late < 2 ^ 32
        → (r : E × Bool) × (join around timeout poll e ≡ some r) × Ends timeout poll e r
    unfolding join
    join_lem timeout poll e p f =
        loop-Ends (suc (suc timeout)) timeout poll e e p f (omega arith) (omega arith) (omega arith)
