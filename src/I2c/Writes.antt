-- ===== src/I2c/Writes.antt =====
-- The writes of many registers of a device.
use tactility_halo.Base.{
  ℕ, ◌==◌, ◌≡◌, ◌≢◌, ◌⊎◌, inl, inr, refl, ap, ◌∙◌, Bool, true, false, ◌&&◌, List, [], ◌∷◌, some,
  arith, if◌then◌else◌, All, Bool-cases,
}
use tactility_halo.I2c.Transfers.{
  Bus, commands, write_register_commands, transfer, master_write_register, write_array_loop,
  master_write_register_array,
}

-- The bytes of the pairs, in their order.
abbrev pub flatten : List (ℕ × ℕ) → List ℕ
flatten [] = []
flatten ((reg, value) ∷ rest) = reg ∷ value ∷ flatten rest

-- What a register holds when all pairs were written in their order.
abbrev pub last_written : List (ℕ × ℕ) → ℕ → ℕ → ℕ
last_written [] r old = old
last_written ((reg, value) ∷ rest) r old = last_written rest r (if reg == r then value else old)

and_both : (a b : Bool) → (a && b) ≡ true → (a ≡ true) × (b ≡ true)
and_both a b h = ground arith

module _ {S : Type 0} (locks : S → Bool) (bus : Bus S) (address : ℕ) where
  -- All pairs are tried, in their order; the result is whether each write was acknowledged.
  abbrev pub tries : List (ℕ × ℕ) → Bool → S → S × Bool
  tries [] good s = (s, good)
  tries ((reg, value) ∷ rest) good s =
      let written =
        transfer locks bus (commands (write_register_commands address reg (value ∷ []))) s in
      tries rest (good && written.1) written.0

module _ {S : Type 0} (locks : S → Bool) (bus : Bus S) (address : ℕ) (register : S → ℕ → ℕ)
    -- A device at the address takes a register and its value from one acknowledged write.
    (stores : (reg value : ℕ) (s : S) (r : ℕ)
      → (bus (commands (write_register_commands address reg (value ∷ []))) s).1 ≡ true
      → register (bus (commands (write_register_commands address reg (value ∷ []))) s).0 r
        ≡ (if reg == r then value else register s r)) where
  write-stores :
      (reg value : ℕ) (s : S) (r : ℕ)
      → (transfer locks bus (commands (write_register_commands address reg (value ∷ []))) s).1
        ≡ true
      → register
          (transfer locks bus (commands (write_register_commands address reg (value ∷ []))) s).0
          r
        ≡ (if reg == r then value else register s r)
  unfolding transfer
  write-stores reg value s r ok = elim (Bool-cases (locks s)) [
    | inl free ↦ rw free (stores reg value s r (ground (arith, free)))
    | inr held ↦ absurd (ground (arith, held))
  ]

  master_write_register_lem :
      (reg value : ℕ) (s : S)
      → reg ≢ 0
      → master_write_register locks bus address reg (value ∷ []) s
        ≡ some (transfer locks bus (commands (write_register_commands address reg (value ∷ []))) s)
  unfolding master_write_register
  master_write_register_lem reg value s h = ground arith

  write_array_loop-tries :
      (pairs : List (ℕ × ℕ)) (good : Bool) (s : S)
      → All (λ pair. pair.0 ≢ 0) pairs
      → write_array_loop locks bus address (flatten pairs) good s
        ≡ some (tries locks bus address pairs good s)
  unfolding write_array_loop
  write_array_loop-tries [] good s h = refl
  write_array_loop-tries ((reg, value) ∷ rest) good s h = ground (
    arith,
    master_write_register_lem reg value s h.0,
    write_array_loop-tries rest
        (good
          && (transfer locks bus (commands (write_register_commands address reg (value ∷ []))) s).1)
        (transfer locks bus (commands (write_register_commands address reg (value ∷ []))) s).0 h.1,
  )

  tries-store :
      (pairs : List (ℕ × ℕ)) (good : Bool) (s : S)
      → (tries locks bus address pairs good s).1 ≡ true
      → (good ≡ true)
        × ((r : ℕ)
            → register (tries locks bus address pairs good s).0 r
              ≡ last_written pairs r (register s r))
  tries-store [] good s all = (all, λ r. refl)
  tries-store ((reg, value) ∷ rest) good s all =
      let written =
        transfer locks bus (commands (write_register_commands address reg (value ∷ []))) s in
      let (kept, holds) = tries-store rest (good && written.1) written.0 all in
      let both = and_both good written.1 kept in
      (both.0, λ r. holds r ∙ ap (last_written rest r) (write-stores reg value s r both.1))

  -- An array of pairs with registers other than 0 is written as a whole: the transfers of all pairs
  -- are made in their order, whatever the earlier ones returned, and the result is whether all were
  -- acknowledged. With the result `true` each register of the device then holds the last value that
  -- the array has for it, and the others hold what they held.
  pub master_write_register_array_lem :
      (pairs : List (ℕ × ℕ)) (s : S)
      → All (λ pair. pair.0 ≢ 0) pairs
      → (master_write_register_array locks bus address (flatten pairs) s
          ≡ some (tries locks bus address pairs true s))
        × (((tries locks bus address pairs true s).1 ≡ false)
            ⊎ ((r : ℕ)
                → register (tries locks bus address pairs true s).0 r
                  ≡ last_written pairs r (register s r)))
  unfolding master_write_register_array
  master_write_register_array_lem pairs s h = (
    write_array_loop-tries pairs true s h,
    elim (Bool-cases (tries locks bus address pairs true s).1) [
      | inl all ↦ inr (tries-store pairs true s all).1
      | inr some_failed ↦ inl some_failed
    ],
  )
