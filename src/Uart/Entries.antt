-- ===== src/Uart/Entries.antt =====
-- What the calls do to the entries of the registry.
use tactility_halo.Base.{
  ℕ, ◌==◌, ◌≡◌, ◌≢◌, ◌⊎◌, refl, sym, subst, inl, inr, String, str_eq, List, [], ◌∷◌, some, arith,
  All, Bool-cases, Option-cases,
}
use tactility_halo.Uart.{UartEntry, take_entry, free_entry}
use tactility_halo.Uart.Registry.{is_name, IsDistinct}

module _ (name : String) (id : ℕ) where
  pub take_entry-All :
      (P : UartEntry → Type 0) (entries entries' : List UartEntry)
      → ((entry : UartEntry) → P (record entry { usage_id = id }))
      → take_entry name id entries ≡ some entries'
      → All P entries
      → All P entries'
  unfolding take_entry
  take_entry-All P [] entries' new e all = absurd (ground arith)
  take_entry-All P (entry ∷ rest) entries' new e all = elim (Bool-cases (str_eq entry.name name)) [
    | inl here ↦ elim (Bool-cases (entry.usage_id == 0)) [
      | inl free ↦
          let z : record entry { usage_id = id } ∷ rest ≡ entries' = ground (arith, here, free) in
          subst (All P) z (new entry, all.1)
      | inr used ↦ absurd (ground (arith, here, used))
    ]
    | inr below ↦ elim (Option-cases (take_entry name id rest)) [
      | inl refused ↦ absurd (ground (arith, below, refused))
      | inr (rest', taken) ↦
          let z : entry ∷ rest' ≡ entries' = ground (arith, below, taken) in
          subst (All P) z (all.0, take_entry-All P rest rest' new taken all.1)
    ]
  ]

  pub take_entry-IsDistinct :
      (entries entries' : List UartEntry)
      → take_entry name id entries ≡ some entries'
      → All (λ entry. entry.usage_id ≢ id) entries
      → IsDistinct entries
      → IsDistinct entries'
  unfolding take_entry
  take_entry-IsDistinct [] entries' e fresh d = absurd (ground arith)
  take_entry-IsDistinct (entry ∷ rest) entries' e fresh d =
      elim (Bool-cases (str_eq entry.name name)) [
        | inl here ↦ elim (Bool-cases (entry.usage_id == 0)) [
          | inl free ↦
              let z : record entry { usage_id = id } ∷ rest ≡ entries' =
                ground (arith, here, free) in
              subst IsDistinct z (inr fresh.1, d.1)
          | inr used ↦ absurd (ground (arith, here, used))
        ]
        | inr below ↦ elim (Option-cases (take_entry name id rest)) [
          | inl refused ↦ absurd (ground (arith, below, refused))
          | inr (rest', taken) ↦
              let z : entry ∷ rest' ≡ entries' = ground (arith, below, taken) in
              subst IsDistinct z (
                elim d.0 [
                  | inl free ↦ inl free
                  | inr apart ↦ inr (
                      take_entry-All (λ other. other.usage_id ≢ entry.usage_id) rest rest'
                        (λ new e'. fresh.0 (sym e')) taken apart)
                ],
                take_entry-IsDistinct rest rest' taken fresh.1 d.1,
              )
        ]
      ]

  pub take_entry-is_name :
      (entries entries' : List UartEntry) (n : String)
      → take_entry name id entries ≡ some entries'
      → is_name entries' n ≡ is_name entries n
  unfolding take_entry
  take_entry-is_name [] entries' n e = absurd (ground arith)
  take_entry-is_name (entry ∷ rest) entries' n e = elim (Bool-cases (str_eq entry.name name)) [
    | inl here ↦ elim (Bool-cases (entry.usage_id == 0)) [
      | inl free ↦
          let z : record entry { usage_id = id } ∷ rest ≡ entries' = ground (arith, here, free) in
          subst (λ x. is_name x n ≡ is_name (entry ∷ rest) n) z refl
      | inr used ↦ absurd (ground (arith, here, used))
    ]
    | inr below ↦ elim (Option-cases (take_entry name id rest)) [
      | inl refused ↦ absurd (ground (arith, below, refused))
      | inr (rest', taken) ↦
          let z : entry ∷ rest' ≡ entries' = ground (arith, below, taken) in
          subst (λ x. is_name x n ≡ is_name (entry ∷ rest) n) z
            (ground (arith, take_entry-is_name rest rest' n taken))
    ]
  ]

module _ (id : ℕ) where
  pub free_entry-All :
      (P : UartEntry → Type 0) (entries : List UartEntry)
      → ((entry : UartEntry) → P (record entry { usage_id = 0 }))
      → All P entries
      → All P (free_entry id entries)
  unfolding free_entry
  free_entry-All P [] new all = tt
  free_entry-All P (entry ∷ rest) new all = elim (Bool-cases (entry.usage_id == id)) [
    | inl this ↦ rw this (new entry, all.1)
    | inr other ↦ rw other (all.0, free_entry-All P rest new all.1)
  ]

  pub free_entry-is_name :
      (entries : List UartEntry) (n : String)
      → is_name (free_entry id entries) n ≡ is_name entries n
  unfolding free_entry
  free_entry-is_name [] n = refl
  free_entry-is_name (entry ∷ rest) n = ground (arith, free_entry-is_name rest n)

  pub free_entry-IsDistinct :
      (entries : List UartEntry) → IsDistinct entries → IsDistinct (free_entry id entries)
  unfolding free_entry
  free_entry-IsDistinct [] d = tt
  free_entry-IsDistinct (entry ∷ rest) d = elim (Bool-cases (entry.usage_id == id)) [
    | inl this ↦ rw this (inl refl, d.1)
    | inr other ↦
        let still_apart : (entry.usage_id ≡ 0)
            ⊎ All (λ later. later.usage_id ≢ entry.usage_id) (free_entry id rest) =
          elim (Bool-cases (entry.usage_id == 0)) [
            | inl free ↦ inl (ground arith)
            | inr used ↦ elim d.0 [
              | inl free ↦ inl free
              | inr apart ↦ inr (
                  free_entry-All (λ later. later.usage_id ≢ entry.usage_id) rest
                    (λ new e. ground (arith, used, e)) apart)
            ]
          ] in
        rw other (still_apart, free_entry-IsDistinct rest d.1)
  ]
