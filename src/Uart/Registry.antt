-- ===== src/Uart/Registry.antt =====
-- The registry of the ports, and a table of the holders of their names.
use tactility_halo.Base.{
  ℕ, ◌≤◌, ◌==◌, ◌≡◌, ◌≢◌, ◌⊎◌, refl, ap, subst, inl, inr, String, str_eq, eq_iff, Bool, true, false,
  ◌&&◌, List, [], ◌∷◌, Option, none, some, arith, if◌then◌else◌, All, Bool-cases, Option-cases,
}
use tactility_halo.Uart.{UartEntry, Uarts, take_entry, free_entry}

abbrev pub is_name : List UartEntry → String → Bool
is_name [] n = false
is_name (entry ∷ rest) n = if str_eq entry.name n then true else is_name rest n

-- The id of the `Uart` that has the first port of the name.
abbrev pub holder : List UartEntry → String → Option ℕ
holder [] n = none
holder (entry ∷ rest) n =
    if str_eq entry.name n
    then (if entry.usage_id == 0 then none else some entry.usage_id)
    else holder rest n

-- No id stands twice, besides the 0 of the free ports.
abbrev pub IsDistinct : List UartEntry → Type 0
IsDistinct [] = Unit
IsDistinct (entry ∷ rest) =
    ((entry.usage_id ≡ 0) ⊎ All (λ other. other.usage_id ≢ entry.usage_id) rest) × IsDistinct rest

pub record IsValid (s : Uarts) : Type 0 where
  pub below : All (λ entry. entry.usage_id ≤ s.last_uart_id) s.entries
  pub distinct : IsDistinct s.entries

abbrev pub is_free : Option ℕ → Bool
is_free none = true
is_free (some id) = false

-- The port of a known name that nobody holds is given out.
pub take_entry-holder :
    (name : String) (id : ℕ) (entries : List UartEntry) (n : String) (entries' : List UartEntry)
    → id ≢ 0
    → take_entry name id entries ≡ some entries'
    → holder entries' n ≡ (if str_eq name n then some id else holder entries n)
unfolding take_entry
take_entry-holder name id [] n entries' h e = absurd (ground arith)
take_entry-holder name id (entry ∷ rest) n entries' h e =
    elim (Bool-cases (str_eq entry.name name)) [
      | inl here ↦ elim (Bool-cases (entry.usage_id == 0)) [
        | inl free ↦
            let z : record entry { usage_id = id } ∷ rest ≡ entries' = ground (arith, here, free) in
            subst (λ x. holder x n ≡ (if str_eq name n then some id else holder (entry ∷ rest) n)) z
              (ground
                (arith, here, free, eq_iff entry.name name, eq_iff entry.name n, eq_iff name n))
        | inr used ↦ absurd (ground (arith, here, used))
      ]
      | inr below ↦ elim (Option-cases (take_entry name id rest)) [
        | inl refused ↦ absurd (ground (arith, below, refused))
        | inr (rest', taken) ↦
            let z : entry ∷ rest' ≡ entries' = ground (arith, below, taken) in
            let later = take_entry-holder name id rest n rest' h taken in
            subst (λ x. holder x n ≡ (if str_eq name n then some id else holder (entry ∷ rest) n)) z
              (ground
                (arith, below, later, eq_iff entry.name name, eq_iff entry.name n, eq_iff name n))
      ]
    ]

pub take_entry_cases :
    (name : String) (id : ℕ) (entries : List UartEntry)
    → (elim (take_entry name id entries) [ none ↦ false | some _ ↦ true ])
      ≡ (is_name entries name && is_free (holder entries name))
unfolding take_entry
take_entry_cases name id [] = refl
take_entry_cases name id (entry ∷ rest) = ground (arith, take_entry_cases name id rest)

abbrev pub holds : Option ℕ → ℕ → Bool
holds none id = false
holds (some held) id = held == id

holds-other :
    (id : ℕ) (entries : List UartEntry) (n : String)
    → All (λ other. other.usage_id ≢ id) entries
    → holds (holder entries n) id ≡ false
holds-other id [] n f = refl
holds-other id (entry ∷ rest) n f = ground (arith, holds-other id rest n f.1, f.0)

holds-zero : (entries : List UartEntry) (n : String) → holds (holder entries n) 0 ≡ false
holds-zero [] n = refl
holds-zero (entry ∷ rest) n = ground (arith, holds-zero rest n)

pub free_entry-holder :
    (id : ℕ) (entries : List UartEntry) (n : String)
    → IsDistinct entries
    → holder (free_entry id entries) n
      ≡ (if holds (holder entries n) id then none else holder entries n)
unfolding free_entry
free_entry-holder id [] n d = refl
free_entry-holder id (entry ∷ rest) n d = elim (Bool-cases (entry.usage_id == id)) [
  | inr other ↦ ground (arith, other, free_entry-holder id rest n d.1)
  | inl this ↦ elim d.0 [
    | inl free ↦
        let zero_id : id ≡ 0 = ground arith in
        ground (arith, this, free, zero_id, ap (holds (holder rest n)) zero_id, holds-zero rest n)
    | inr apart ↦
        let same : entry.usage_id ≡ id = ground arith in
        ground
          (arith, this, holds-other entry.usage_id rest n apart, ap (holds (holder rest n)) same)
  ]
]
