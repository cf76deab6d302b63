-- ===== src/I2c/Immutable.antt =====
-- Ports whose configuration is not mutable.
use tactility_halo.Base.{
  ℕ, suc, zero, ◌==◌, ◌≡◌, ◌∙◌, refl, ap, sym, inl, inr, Bool, true, false, List, [], ◌∷◌, some,
  some-injective, subst, arith, if◌then◌else◌, get_elem?, set, Option-cases, Bool-cases,
}
use tactility_halo.I2c.{Driver, PortData, Ports, start_port, stop_port, configure_port}
use tactility_halo.I2c.Cases.{
  Operation, configures, starts, stops, act, run, start-cases, stop-cases, configure-cases,
}

module _ {C : Type 0} where
  get_elem?-set :
      (xs : List (PortData C)) (i p : ℕ) (old v : PortData C)
      → get_elem? xs i ≡ some old
      → get_elem? (set xs i v) p ≡ (if i == p then some v else get_elem? xs p)
  get_elem?-set [] i p old v e = absurd (ground arith)
  get_elem?-set (x ∷ xs) zero zero old v e = refl
  get_elem?-set (x ∷ xs) zero (suc p) old v e = ground arith
  get_elem?-set (x ∷ xs) (suc i) zero old v e = ground arith
  get_elem?-set (x ∷ xs) (suc i) (suc p) old v e = ground (arith, get_elem?-set xs i p old v e)

module _ {C D : Type 0} (driver : Driver C D) (p : ℕ) (entry : PortData C)
    (immutable : entry.configuration.is_mutable ≡ false) (running : entry.is_started ≡ true) where
  Has : Ports C D → Type 0
  Has s = get_elem? s.data_array p ≡ some entry

  is_entry :
      (port : ℕ) (other : PortData C) (s : Ports C D)
      → get_elem? s.data_array port ≡ some other
      → Has s
      → (port == p) ≡ true
      → other ≡ entry
  unfolding Has
  is_entry port other s found h same =
      let at_p : port ≡ p = ground arith in
      some-injective other entry (sym found ∙ ap (get_elem? s.data_array) at_p ∙ h)

  start_port-Has :
      (port : ℕ) (other : PortData C) (s : Ports C D)
      → get_elem? s.data_array port ≡ some other
      → Has s
      → Has (start_port driver port other s).0
  unfolding start_port Has
  start_port-Has port other s found h = elim (Bool-cases (port == p)) [
    | inl same ↦
        let on : other.is_started ≡ true =
          ap (λ x. x.is_started) (is_entry port other s found h same) ∙ running in
        let refused : (start_port driver port other s).0 ≡ s = ground (arith, on) in
        subst Has (sym refused) h
    | inr apart ↦ ground (
      arith,
      apart,
      get_elem?-set s.data_array port p other (record other { is_started = true }) found,
    )
  ]

  stop_port-Has :
      (port : ℕ) (other : PortData C) (s : Ports C D)
      → get_elem? s.data_array port ≡ some other
      → Has s
      → Has (stop_port driver port other s).0
  unfolding stop_port Has
  stop_port-Has port other s found h = elim (Bool-cases (port == p)) [
    | inl same ↦
        let fixed : other.configuration.is_mutable ≡ false =
          ap (λ x. x.configuration.is_mutable) (is_entry port other s found h same) ∙ immutable in
        let refused : (stop_port driver port other s).0 ≡ s = ground (arith, fixed) in
        subst Has (sym refused) h
    | inr apart ↦ ground (
      arith,
      apart,
      get_elem?-set s.data_array port p other (record other { is_started = false }) found,
    )
  ]

  configure_port-Has :
      (port : ℕ) (config : C) (other : PortData C) (s : Ports C D)
      → get_elem? s.data_array port ≡ some other
      → Has s
      → Has (configure_port port config other s).0
  unfolding configure_port Has
  configure_port-Has port config other s found h = elim (Bool-cases (port == p)) [
    | inl same ↦
        let on : other.is_started ≡ true =
          ap (λ x. x.is_started) (is_entry port other s found h same) ∙ running in
        let refused : (configure_port port config other s).0 ≡ s = ground (arith, on) in
        subst Has (sym refused) h
    | inr apart ↦
        let changed : PortData C = record other {
          configuration = record other.configuration { config = config };
        } in
        ground (arith, apart, get_elem?-set s.data_array port p other changed found)
  ]

  act-Has :
      (operation : Operation C) (s : Ports C D) (r : Ports C D × Bool)
      → act driver operation s ≡ some r
      → Has s
      → Has r.0
  act-Has (configures port config) s r e h =
      let (other, found, z) = configure-cases driver port config s r e in
      rw z (configure_port-Has port config other s found h)
  act-Has (starts port) s r e h =
      let (other, found, z) = start-cases driver port s r e in
      rw z (start_port-Has port other s found h)
  act-Has (stops port) s r e h =
      let (other, found, z) = stop-cases driver port s r e in
      rw z (stop_port-Has port other s found h)

  -- What the ports hold for a started port with an immutable configuration stays as it is through
  -- every sequence of calls.
  pub run-immutable :
      (operations : List (Operation C)) (s s' : Ports C D)
      → get_elem? s.data_array p ≡ some entry
      → run driver operations s ≡ some s'
      → get_elem? s'.data_array p ≡ some entry
  unfolding Has
  run-immutable [] s s' h e = ground arith
  run-immutable (operation ∷ rest) s s' h e = elim (Option-cases (act driver operation s)) [
    | inl outside ↦ absurd (ground arith)
    | inr (r, done) ↦
        run-immutable rest r.0 s' (act-Has operation s r done h) (ground (arith, done))
  ]
