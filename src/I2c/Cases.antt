-- ===== src/I2c/Cases.antt =====
-- Histories of the calls of the ports, and the cases of each call.
use tactility_halo.Base.{
  ℕ, suc, zero, ◌==◌, ◌≡◌, ◌∙◌, refl, inl, inr, Bool, true, false, ◌||◌, List, [], ◌∷◌, Option,
  none, some, arith, if◌then◌else◌, get_elem?, set, Option-cases, Bool-cases,
}
use tactility_halo.I2c.{
  by_external, Driver, Configuration, PortData, Ports, start_port, start, stop_port, stop,
  init_configure, configure_port, configure,
}

pub data Operation (C : Type 0) : Type 0 where
  configures : ℕ → C → Operation C
  starts stops : ℕ → Operation C

module _ {C : Type 0} where
  abbrev pub started : List (PortData C) → ℕ → Bool
  started [] p = false
  started (x ∷ xs) zero = x.is_started
  started (x ∷ xs) (suc p) = started xs p

  -- Whether a bus of the list is started by something else, at this port.
  abbrev pub is_external : List (Configuration C) → ℕ → Bool
  is_external [] p = false
  is_external (c ∷ rest) p =
      elim c.init_mode [ by_external ↦ c.port == p | _ ↦ false ] || is_external rest p

  pub started-set :
      (xs : List (PortData C)) (i p : ℕ) (old v : PortData C)
      → get_elem? xs i ≡ some old
      → started (set xs i v) p ≡ (if i == p then v.is_started else started xs p)
  started-set [] i p old v e = absurd (ground arith)
  started-set (x ∷ xs) zero zero old v e = refl
  started-set (x ∷ xs) zero (suc p) old v e = ground arith
  started-set (x ∷ xs) (suc i) zero old v e = ground arith
  started-set (x ∷ xs) (suc i) (suc p) old v e = ground (arith, started-set xs i p old v e)

  pub started-get :
      (xs : List (PortData C)) (i : ℕ) (v : PortData C)
      → get_elem? xs i ≡ some v
      → started xs i ≡ v.is_started
  started-get [] i v e = absurd (ground arith)
  started-get (x ∷ xs) zero v e = ground arith
  started-get (x ∷ xs) (suc i) v e = started-get xs i v e

  pub started-set_same :
      (xs : List (PortData C)) (i p : ℕ) (old v : PortData C)
      → get_elem? xs i ≡ some old
      → v.is_started ≡ old.is_started
      → started (set xs i v) p ≡ started xs p
  started-set_same xs i p old v e same =
      ground (arith, started-set xs i p old v e, started-get xs i old e)

module _ {C D : Type 0} (driver : Driver C D) where
  abbrev pub act : Operation C → Ports C D → Option (Ports C D × Bool)
  act (configures port config) s = configure port config s
  act (starts port) s = start driver port s
  act (stops port) s = stop driver port s

  -- The results of the operations are not looked at.
  abbrev pub run : List (Operation C) → Ports C D → Option (Ports C D)
  run [] s = some s
  run (operation ∷ rest) s = elim (act operation s) [
    | none ↦ none
    | some (s', result) ↦ run rest s'
  ]

  pub start-cases :
      (port : ℕ) (s : Ports C D) (r : Ports C D × Bool)
      → start driver port s ≡ some r
      → (entry : PortData C) × (get_elem? s.data_array port ≡ some entry)
        × (r ≡ start_port driver port entry s)
  unfolding start
  start-cases port s r e = elim (Option-cases (get_elem? s.data_array port)) [
    | inl outside ↦ absurd (ground arith)
    | inr (entry, found) ↦ (entry, found, ground arith)
  ]

  pub stop-cases :
      (port : ℕ) (s : Ports C D) (r : Ports C D × Bool)
      → stop driver port s ≡ some r
      → (entry : PortData C) × (get_elem? s.data_array port ≡ some entry)
        × (r ≡ stop_port driver port entry s)
  unfolding stop
  stop-cases port s r e = elim (Option-cases (get_elem? s.data_array port)) [
    | inl outside ↦ absurd (ground arith)
    | inr (entry, found) ↦ (entry, found, ground arith)
  ]

  pub configure-cases :
      (port : ℕ) (config : C) (s : Ports C D) (r : Ports C D × Bool)
      → configure port config s ≡ some r
      → (entry : PortData C) × (get_elem? s.data_array port ≡ some entry)
        × (r ≡ configure_port port config entry s)
  unfolding configure
  configure-cases port config s r e = elim (Option-cases (get_elem? s.data_array port)) [
    | inl outside ↦ absurd (ground arith)
    | inr (entry, found) ↦ (entry, found, ground arith)
  ]

  pub init_configure-started :
      (configurations : List (Configuration C)) (xs : List (PortData C))
      (r : List (PortData C) × Bool) (p : ℕ)
      → init_configure driver configurations xs ≡ some r
      → started r.0 p ≡ started xs p
  unfolding init_configure
  init_configure-started [] xs r p e = ground arith
  init_configure-started (c ∷ rest) xs r p e = elim (Bool-cases (driver.is_master c.config)) [
    | inr slave ↦ ground (arith, slave)
    | inl master ↦ elim (Option-cases (get_elem? xs c.port)) [
      | inl outside ↦ absurd (ground (arith, master, outside))
      | inr (old, found) ↦
          let new : PortData C = record old { configuration = c; is_configured = true } in
          let later =
            init_configure-started rest (set xs c.port new) r p (ground (arith, master, found)) in
          later ∙ started-set_same xs c.port p old new found refl
    ]
  ]
