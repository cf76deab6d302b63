-- ===== src/I2c/States.antt =====
-- The state that the program keeps of each port, against that of the driver.
use tactility_halo.Base.{
  ℕ, ◌&&◌, ◌==◌, ◌≡◌, refl, ◌⊎◌, inl, inr, Bool, true, false, ◌||◌, List, [], ◌∷◌, some,
  some-injective, subst, arith, if◌then◌else◌, get_elem?, Option-cases, Bool-cases,
}
use tactility_halo.I2c.{
  InitMode, by_tactility, by_external, disabled, Driver, Configuration, PortData, Ports, start_port,
  start, stop_port, init_configure, init_external, configure_port, init_start, init,
}
use tactility_halo.I2c.Cases.{
  Operation, configures, starts, stops, started, is_external, started-set, started-set_same, act,
  run, start-cases, stop-cases, configure-cases, init_configure-started,
}

-- What the driver's documentation says of which ports have it installed.
pub record Documented {C D : Type 0} (driver : Driver C D) (installed : D → ℕ → Bool) : Type 0 where
  pub param_config_keeps :
      (p : ℕ) (c : C) (d : D) (q : ℕ) → installed (driver.param_config p c d).0 q ≡ installed d q
  pub install_installs :
      (p : ℕ) (c : C) (d : D) (q : ℕ)
      → installed (driver.driver_install p c d).0 q
        ≡ (if (driver.driver_install p c d).1 && p == q then true else installed d q)
  pub delete_removes :
      (p : ℕ) (d : D) (q : ℕ)
      → installed (driver.driver_delete p d).0 q
        ≡ (if (driver.driver_delete p d).1 && p == q then false else installed d q)

InitMode-cases : (m : InitMode) → (m ≡ by_tactility) ⊎ ((m ≡ by_external) ⊎ (m ≡ disabled))
InitMode-cases by_tactility = inl refl
InitMode-cases by_external = inr (inl refl)
InitMode-cases disabled = inr (inr refl)

module _ {C D : Type 0} (driver : Driver C D) where
  module _ (installed : D → ℕ → Bool) (laws : Documented driver installed) where
    -- Besides the ports that the program has started, the driver serves those of `later`.
    abbrev pub Agrees : (ℕ → Bool) → Ports C D → Type 0
    Agrees later s = (p : ℕ) → installed s.driver p ≡ (started s.data_array p || later p)

    start_port-Agrees :
        (later : ℕ → Bool) (port : ℕ) (entry : PortData C) (s : Ports C D)
        → get_elem? s.data_array port ≡ some entry
        → Agrees later s
        → Agrees later (start_port driver port entry s).0
    unfolding start_port
    start_port-Agrees later port entry s e a p = ground (
      arith,
      a p,
      laws.param_config_keeps port entry.configuration.config s.driver p,
      laws.install_installs port entry.configuration.config
          (driver.param_config port entry.configuration.config s.driver).0 p,
      started-set s.data_array port p entry (record entry { is_started = true }) e,
    )

    -- The driver serves exactly the started ports.
    abbrev pub Settled : Ports C D → Type 0
    Settled s = (p : ℕ) → installed s.driver p ≡ started s.data_array p

    start_port-Settled :
        (port : ℕ) (entry : PortData C) (s : Ports C D)
        → get_elem? s.data_array port ≡ some entry
        → Settled s
        → Settled (start_port driver port entry s).0
    unfolding start_port
    start_port-Settled port entry s e a p = ground (
      arith,
      a p,
      laws.param_config_keeps port entry.configuration.config s.driver p,
      laws.install_installs port entry.configuration.config
          (driver.param_config port entry.configuration.config s.driver).0 p,
      started-set s.data_array port p entry (record entry { is_started = true }) e,
    )

    stop_port-Settled :
        (port : ℕ) (entry : PortData C) (s : Ports C D)
        → get_elem? s.data_array port ≡ some entry
        → Settled s
        → Settled (stop_port driver port entry s).0
    unfolding stop_port
    stop_port-Settled port entry s e a p = ground (
      arith,
      a p,
      laws.delete_removes port s.driver p,
      started-set s.data_array port p entry (record entry { is_started = false }) e,
    )

    configure_port-Settled :
        (port : ℕ) (config : C) (entry : PortData C) (s : Ports C D)
        → get_elem? s.data_array port ≡ some entry
        → Settled s
        → Settled (configure_port port config entry s).0
    unfolding configure_port
    configure_port-Settled port config entry s e a p =
        let changed : PortData C = record entry {
          configuration = record entry.configuration { config = config };
        } in
        ground (arith, a p, started-set_same s.data_array port p entry changed e refl)

    act-Settled :
        (operation : Operation C) (s : Ports C D) (r : Ports C D × Bool)
        → act driver operation s ≡ some r
        → Settled s
        → Settled r.0
    act-Settled (configures port config) s r e a =
        let (entry, found, z) = configure-cases driver port config s r e in
        rw z (configure_port-Settled port config entry s found a)
    act-Settled (starts port) s r e a =
        let (entry, found, z) = start-cases driver port s r e in
        rw z (start_port-Settled port entry s found a)
    act-Settled (stops port) s r e a =
        let (entry, found, z) = stop-cases driver port s r e in
        rw z (stop_port-Settled port entry s found a)

    run-Settled :
        (operations : List (Operation C)) (s s' : Ports C D)
        → run driver operations s ≡ some s'
        → Settled s
        → Settled s'
    run-Settled [] s s' e a = subst Settled (some-injective s s' e) a
    run-Settled (operation ∷ rest) s s' e a = elim (Option-cases (act driver operation s)) [
      | inl outside ↦ absurd (ground arith)
      | inr (r, done) ↦
          run-Settled rest r.0 s' (ground (arith, done)) (act-Settled operation s r done a)
    ]

    external-Agrees :
        (config : Configuration C) (rest : List (Configuration C)) (s s' : Ports C D)
        → config.init_mode ≡ by_external
        → init_external config.port s ≡ some s'
        → Agrees (is_external (config ∷ rest)) s
        → Agrees (is_external rest) s'
    unfolding init_external
    external-Agrees config rest s s' m e a p =
        elim (Option-cases (get_elem? s.data_array config.port)) [
          | inl outside ↦ absurd (ground arith)
          | inr (entry, found) ↦
              let moved =
                started-set s.data_array config.port p entry (record entry { is_started = true })
                  found in
              ground (arith, a p, moved, m)
        ]

    start-Agrees :
        (config : Configuration C) (rest : List (Configuration C)) (s : Ports C D)
        (r : Ports C D × Bool)
        → config.init_mode ≡ by_tactility
        → start driver config.port s ≡ some r
        → Agrees (is_external (config ∷ rest)) s
        → Agrees (is_external rest) r.0
    start-Agrees config rest s r m e a =
        let (entry, found, z) = start-cases driver config.port s r e in
        rw z (
          start_port-Agrees (is_external rest) config.port entry s found
            (λ p. ground (arith, m, a p)))

    init_start-Agrees :
        (configurations : List (Configuration C)) (s s' : Ports C D)
        → init_start driver configurations s ≡ some (s', true)
        → Agrees (is_external configurations) s
        → Agrees (λ p. false) s'
    unfolding init_start
    init_start-Agrees [] s s' e a =
        let same : s ≡ s' = ground arith in subst (Agrees (λ p. false)) same a
    init_start-Agrees (config ∷ rest) s s' e a = elim (InitMode-cases config.init_mode) [
      | inl by_us ↦ elim (Option-cases (start driver config.port s)) [
        | inl outside ↦ absurd (ground (arith, by_us, outside))
        | inr (r, done) ↦ elim (Bool-cases r.1) [
          | inl succeeds ↦
              init_start-Agrees rest r.0 s' (ground (arith, by_us, done, succeeds))
                (start-Agrees config rest s r by_us done a)
          | inr fails ↦ absurd (ground (arith, by_us, done, fails))
        ]
      ]
      | inr (inl external) ↦ elim (Option-cases (init_external config.port s)) [
        | inl outside ↦ absurd (ground (arith, external, outside))
        | inr (r, done) ↦
            init_start-Agrees rest r s' (ground (arith, external, done))
              (external-Agrees config rest s r external done a)
      ]
      | inr (inr off) ↦
          init_start-Agrees rest s s' (ground (arith, off)) (λ p. ground (arith, off, a p))
    ]

    init-Settled :
        (configurations : List (Configuration C)) (s s' : Ports C D)
        → ((p : ℕ) → started s.data_array p ≡ false)
        → ((p : ℕ) → installed s.driver p ≡ is_external configurations p)
        → init driver configurations s ≡ some (s', true)
        → Settled s'
    unfolding init
    init-Settled configurations s s' none_started external e =
        elim (Option-cases (init_configure driver configurations s.data_array)) [
          | inl outside ↦ absurd (ground (arith, outside))
          | inr (r, done) ↦ elim (Bool-cases r.1) [
            | inl succeeds ↦
                let begin : Ports C D = record s { data_array = r.0 } in
                let agrees : Agrees (λ p. false) s' =
                  init_start-Agrees configurations begin s' (ground (arith, done, succeeds)) (λ p.
                    ground (
                      arith,
                      none_started p,
                      external p,
                      init_configure-started driver configurations s.data_array r p done,
                    )) in
                λ p. ground (arith, agrees p)
            | inr fails ↦ absurd (ground (arith, done, fails))
          ]
        ]

    -- No port is started before `init`, and then the driver serves the buses that something else
    -- starts. If `init` succeeds, then after every sequence of calls the driver serves exactly the
    -- ports that the program takes for started, whatever the calls return.
    pub init-run :
        (configurations : List (Configuration C)) (operations : List (Operation C))
        (s s' s'' : Ports C D)
        → ((p : ℕ) → started s.data_array p ≡ false)
        → ((p : ℕ) → installed s.driver p ≡ is_external configurations p)
        → init driver configurations s ≡ some (s', true)
        → run driver operations s' ≡ some s''
        → (p : ℕ) → installed s''.driver p ≡ started s''.data_array p
    init-run configurations operations s s' s'' none_started external initialised ran =
        run-Settled operations s' s'' ran
          (init-Settled configurations s s' none_started external initialised)
