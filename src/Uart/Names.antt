-- ===== src/Uart/Names.antt =====
-- Calls of `open` and `close` against a table of the names and their holders.
use tactility_halo.Base.{
  ℕ, ◌+◌, ◌%◌, ◌^◌, ◌≤◌, ◌<◌, ◌≡◌, ◌≢◌, ◌∙◌, refl, ap, inl, inr, String, str_eq, Bool, true, false,
  ◌&&◌, List, [], ◌∷◌, Option, none, some, arith, if◌then◌else◌, All, Option-cases, length,
}
use tactility_halo.Uart.{UartEntry, Uarts, take_entry, open_uart, close}
use tactility_halo.Uart.Entries.{
  take_entry-All, take_entry-IsDistinct, take_entry-is_name, free_entry-All, free_entry-IsDistinct,
  free_entry-is_name,
}
use tactility_halo.Uart.Registry.{
  is_name, holder, IsValid, is_free, holds, take_entry-holder, take_entry_cases, free_entry-holder,
}

-- Who holds each name, and the last id that was given out.
pub record Holders : Type 0 where
  pub held : String → Option ℕ
  pub last : ℕ

-- A known name that nobody holds is given out under the next id.
abbrev pub give : (String → Bool) → String → Holders → Holders × Option ℕ
give known name t =
    if known name && is_free (t.held name)
    then (
      record {
        held = λ n. if str_eq name n then some (t.last + 1) else t.held n;
        last = t.last + 1;
      },
      some (t.last + 1),
    )
    else (t, none)

-- Whoever has the id gives back what it holds.
abbrev pub give_back : ℕ → Holders → Holders
give_back id t = record t { held = λ n. if holds (t.held n) id then none else t.held n }

pub data Operation : Type 0 where
  opens : String → Operation
  closes : ℕ → Operation

-- What the calls of `open` return.
abbrev pub run : List Operation → Uarts → List (Option ℕ)
run [] s = []
run (opens name ∷ rest) s = let (s', uart) = open_uart name s in uart ∷ run rest s'
run (closes id ∷ rest) s = run rest (close id s)

abbrev pub run_table : (String → Bool) → List Operation → Holders → List (Option ℕ)
run_table known [] t = []
run_table known (opens name ∷ rest) t =
    let (t', uart) = give known name t in uart ∷ run_table known rest t'
run_table known (closes id ∷ rest) t = run_table known rest (give_back id t)

pub record Represents (known : String → Bool) (s : Uarts) (t : Holders) : Type 0 where
  pub valid : IsValid s
  pub names : (n : String) → is_name s.entries n ≡ known n
  pub holders : (n : String) → holder s.entries n ≡ t.held n
  pub last : s.last_uart_id ≡ t.last

above :
    (last : ℕ) (entries : List UartEntry)
    → All (λ entry. entry.usage_id ≤ last) entries
    → All (λ entry. entry.usage_id ≢ last + 1) entries
above last [] all = tt
above last (entry ∷ rest) all = (omega arith, above last rest all.1)

raise :
    (last : ℕ) (entries : List UartEntry)
    → All (λ entry. entry.usage_id ≤ last) entries
    → All (λ entry. entry.usage_id ≤ last + 1) entries
raise last [] all = tt
raise last (entry ∷ rest) all = (omega arith, raise last rest all.1)

module _ (known : String → Bool) where
  open_refused :
      (name : String) (s : Uarts)
      → s.last_uart_id + 1 < 2 ^ 32
      → take_entry name (s.last_uart_id + 1) s.entries ≡ none
      → open_uart name s ≡ (s, none)
  unfolding open_uart
  open_refused name s h e =
      let whole : (s.last_uart_id + 1) % 2 ^ 32 ≡ s.last_uart_id + 1 = omega arith in
      ground (arith, ap (λ id. take_entry name id s.entries) whole, e)

  open_taken :
      (name : String) (s : Uarts) (entries : List UartEntry)
      → s.last_uart_id + 1 < 2 ^ 32
      → take_entry name (s.last_uart_id + 1) s.entries ≡ some entries
      → open_uart name s ≡ (
        record { entries = entries; last_uart_id = s.last_uart_id + 1 },
        some (s.last_uart_id + 1),
      )
  unfolding open_uart
  open_taken name s entries h e =
      let whole : (s.last_uart_id + 1) % 2 ^ 32 ≡ s.last_uart_id + 1 = omega arith in
      ground (arith, ap (λ id. take_entry name id s.entries) whole, e)

  -- Whether the name can be given out is read off the entries.
  may_open :
      (name : String) (s : Uarts) (t : Holders) (id : ℕ)
      → Represents known s t
      → (elim (take_entry name id s.entries) [ none ↦ false | some _ ↦ true ])
        ≡ (known name && is_free (t.held name))
  may_open name s t id r =
      take_entry_cases name id s.entries
      ∙ ap (λ b. b && is_free (holder s.entries name)) (r.names name)
      ∙ ap (λ x. known name && is_free x) (r.holders name)

  fresh : (s : Uarts) → IsValid s → All (λ entry. entry.usage_id ≢ s.last_uart_id + 1) s.entries
  fresh s v = above s.last_uart_id s.entries v.below

  taken-IsValid :
      (name : String) (s : Uarts) (entries : List UartEntry)
      → take_entry name (s.last_uart_id + 1) s.entries ≡ some entries
      → IsValid s
      → IsValid (record { entries = entries; last_uart_id = s.last_uart_id + 1 })
  taken-IsValid name s entries taken v = record {
    below =
        take_entry-All name (s.last_uart_id + 1) (λ entry. entry.usage_id ≤ s.last_uart_id + 1)
          s.entries entries (λ new. omega arith) taken (raise s.last_uart_id s.entries v.below);
    distinct =
        take_entry-IsDistinct name (s.last_uart_id + 1) s.entries entries taken (fresh s v)
          v.distinct;
  }

  open-Represents :
      (name : String) (s : Uarts) (t : Holders)
      → s.last_uart_id + 1 < 2 ^ 32
      → Represents known s t
      → ((open_uart name s).1 ≡ (give known name t).1)
        × Represents known (open_uart name s).0 (give known name t).0
  open-Represents name s t h r =
      let id : ℕ = s.last_uart_id + 1 in
      elim (Option-cases (take_entry name id s.entries)) [
        | inl refused ↦
            let no : (known name && is_free (t.held name)) ≡ false =
              ground (arith, refused, may_open name s t id r) in
            rw (open_refused name s h refused, no) (refl, r)
        | inr (entries, taken) ↦
            let may : (known name && is_free (t.held name)) ≡ true =
              ground (arith, taken, may_open name s t id r) in
            rw (open_taken name s entries h taken, may)
              (
                ap (λ n. some (n + 1)) r.last,
                record {
                  valid = taken-IsValid name s entries taken r.valid;
                  names = λ n. take_entry-is_name name id s.entries entries n taken ∙ r.names n;
                  holders = λ n.
                      take_entry-holder name id s.entries n entries (omega arith) taken
                      ∙ ap (λ x. if str_eq name n then some (x + 1) else holder s.entries n) r.last
                      ∙ ap (λ x. if str_eq name n then some (t.last + 1) else x) (r.holders n);
                  last = ap (λ n. n + 1) r.last;
                },
              )
      ]

  close-Represents :
      (id : ℕ) (s : Uarts) (t : Holders)
      → Represents known s t
      → Represents known (close id s) (give_back id t)
  unfolding close
  close-Represents id s t r = record {
    valid = record {
      below =
          free_entry-All id (λ entry. entry.usage_id ≤ s.last_uart_id) s.entries
            (λ new. omega arith) r.valid.below;
      distinct = free_entry-IsDistinct id s.entries r.valid.distinct;
    };
    names = λ n. free_entry-is_name id s.entries n ∙ r.names n;
    holders = λ n.
        free_entry-holder id s.entries n r.valid.distinct
        ∙ ap (λ x. if holds x id then none else x) (r.holders n);
    last = r.last;
  }

  open_last :
      (name : String) (s : Uarts)
      → s.last_uart_id + 1 < 2 ^ 32
      → (open_uart name s).0.last_uart_id ≤ s.last_uart_id + 1
  open_last name s h = elim (Option-cases (take_entry name (s.last_uart_id + 1) s.entries)) [
    | inl refused ↦ rw (open_refused name s h refused) (omega arith)
    | inr (entries, taken) ↦ rw (open_taken name s entries h taken) (omega arith)
  ]

  -- While the ids do not wrap, the registry returns in every sequence of calls what a table of the
  -- names returns that starts with the same holders: the first `open` of a known name gets the next
  -- id, all others get nothing until that id is closed.
  pub run-run_table :
      (operations : List Operation) (s : Uarts) (t : Holders)
      → s.last_uart_id + length operations < 2 ^ 32
      → Represents known s t
      → run operations s ≡ run_table known operations t
  run-run_table [] s t h r = refl
  run-run_table (opens name ∷ rest) s t h r =
      let (same, represents) = open-Represents name s t (omega arith) r in
      let later =
        run-run_table rest (open_uart name s).0 (give known name t).0
          (omega (arith, open_last name s)) represents in
      λ i. same i ∷ later i
  run-run_table (closes id ∷ rest) s t h r =
      run-run_table rest (close id s) (give_back id t) (unfold close in omega arith)
        (close-Represents id s t r)
