-- ===== src/Services/Running.antt =====
-- Which services are found after a history of calls.
use tactility_halo.Base.{
  ◌+◌, ◌≡◌, ◌∙◌, refl, ap, sym, inl, inr, String, Bool, true, false, ◌&&◌, List, [], ◌∷◌, Option,
  none, some, arith, lookup, insert, erase, lookup-insert, lookup-erase, str_eq, eq_iff,
  if◌then◌else◌, Option-cases, Bool-cases,
}
use tactility_halo.Services.{
  ServiceManifest, ServiceInstance, Services, find_manifest_id, find_service_instance_by_id,
  start_service, stop_service, register_manifest, add_service,
}

pub data Operation : Type 0 where
  starts stops : String → Operation

abbrev pub apply : Services → Operation → Services
apply s (starts id) = (start_service s id).0
apply s (stops id) = (stop_service s id).0

abbrev pub run : Services → List Operation → Services
run s [] = s
run s (operation ∷ rest) = run (apply s operation) rest

abbrev pub is_some {ℓ} : {A : Type ℓ} → Option A → Bool
is_some none = false
is_some (some a) = true

-- Whether one service runs, from whether its id is registered and whether it ran before: the last
-- call for its id decides.
abbrev pub is_running : String → Bool → Bool → List Operation → Bool
is_running id registered before [] = before
is_running id registered before (starts other ∷ rest) =
    is_running id registered (if str_eq other id && registered then true else before) rest
is_running id registered before (stops other ∷ rest) =
    is_running id registered (if str_eq other id then false else before) rest

-- The manifests stand under their own ids.
abbrev pub IsValid : Services → Type 0
IsValid s = (id : String) (m : ServiceManifest) → find_manifest_id s id ≡ some m → m.id ≡ id

start-unknown :
    (s : Services) (id : String) → find_manifest_id s id ≡ none → (start_service s id).0 ≡ s
unfolding start_service
start-unknown s id e = rw (e, start_service)

start-known :
    (s : Services) (id : String) (m : ServiceManifest)
    → find_manifest_id s id ≡ some m
    → (start_service s id).0 ≡ record s {
      instances = insert m.id (record { manifest = m; number = s.made }) s.instances;
      made = s.made + 1;
    }
unfolding start_service
start-known s id m e = rw (e, start_service)

stop-unknown :
    (s : Services) (id : String)
    → find_service_instance_by_id s id ≡ none
    → (stop_service s id).0 ≡ s
unfolding stop_service
stop-unknown s id e = rw (e, stop_service)

stop-known :
    (s : Services) (id : String) (i : ServiceInstance)
    → find_service_instance_by_id s id ≡ some i
    → (stop_service s id).0 ≡ record s { instances = erase id s.instances }
unfolding stop_service
stop-known s id i e = rw (e, stop_service)

apply-manifests : (s : Services) (o : Operation) → (apply s o).manifests ≡ s.manifests
apply-manifests s (starts id) = elim (Option-cases (find_manifest_id s id)) [
  | inl unknown ↦ ap (λ x. x.manifests) (start-unknown s id unknown)
  | inr (m, known) ↦ ap (λ x. x.manifests) (start-known s id m known)
]
apply-manifests s (stops id) = elim (Option-cases (find_service_instance_by_id s id)) [
  | inl unknown ↦ ap (λ x. x.manifests) (stop-unknown s id unknown)
  | inr (i, known) ↦ ap (λ x. x.manifests) (stop-known s id i known)
]

apply-found :
    (s : Services) (o : Operation) (id : String)
    → IsValid s
    → is_some (find_service_instance_by_id (apply s o) id)
      ≡ is_running id
          (is_some (find_manifest_id s id))
          (is_some (find_service_instance_by_id s id))
          (o ∷ [])
unfolding find_service_instance_by_id
apply-found s (starts other) id v = elim (Option-cases (find_manifest_id s other)) [
  | inl unknown ↦ elim (Bool-cases (str_eq other id)) [
    | inl same ↦
        let e : other ≡ id = ground (arith, eq_iff other id, same) in
        ap (λ x. is_some (lookup id x.instances)) (start-unknown s other unknown)
        ∙ ground (arith, same, ap (find_manifest_id s) e, unknown)
    | inr apart ↦
        ap (λ x. is_some (lookup id x.instances)) (start-unknown s other unknown)
        ∙ ground (arith, apart)
  ]
  | inr (m, known) ↦
      ap (λ x. is_some (lookup id x.instances)) (start-known s other m known)
      ∙ elim (Bool-cases (str_eq other id)) [
        | inl same ↦
            let e : other ≡ id = ground (arith, eq_iff other id, same) in
            ground (
              arith,
              same,
              eq_iff m.id id,
              v other m known,
              e,
              ap (find_manifest_id s) e,
              known,
              lookup-insert m.id id (record { manifest = m; number = s.made }) s.instances,
            )
        | inr apart ↦ ground (
          arith,
          apart,
          eq_iff m.id id,
          eq_iff other id,
          v other m known,
          lookup-insert m.id id (record { manifest = m; number = s.made }) s.instances,
        )
      ]
]
apply-found s (stops other) id v = elim (Option-cases (lookup other s.instances)) [
  | inl unknown ↦
      ap (λ x. is_some (lookup id x.instances)) (stop-unknown s other unknown)
      ∙ elim (Bool-cases (str_eq other id)) [
        | inl same ↦
            let e : other ≡ id = ground (arith, eq_iff other id, same) in
            ground (arith, same, ap (λ k. lookup k s.instances) e, unknown)
        | inr apart ↦ ground (arith, apart)
      ]
  | inr (i, known) ↦
      ap (λ x. is_some (lookup id x.instances)) (stop-known s other i known)
      ∙ ground (arith, lookup-erase other id s.instances)
]

is_running-cons :
    (id : String) (registered before : Bool) (o : Operation) (rest : List Operation)
    → is_running id registered before (o ∷ rest)
      ≡ is_running id registered (is_running id registered before (o ∷ [])) rest
is_running-cons id registered before (starts other) rest = refl
is_running-cons id registered before (stops other) rest = refl

-- After every history of `startService` and `stopService` a service is found by its id exactly if
-- the last call for the id was a start, of a registered id; without a call, if it was found
-- before. The manifests stand under their own ids.
pub run-is_running :
    (operations : List Operation) (s : Services) (id : String)
    → IsValid s
    → is_some (find_service_instance_by_id (run s operations) id)
      ≡ is_running id
          (is_some (find_manifest_id s id))
          (is_some (find_service_instance_by_id s id))
          operations
unfolding find_manifest_id
run-is_running [] s id v = refl
run-is_running (o ∷ rest) s id v =
    let same = apply-manifests s o in
    run-is_running rest (apply s o) id (λ k m e. v k m (ap (lookup k) (sym same) ∙ e))
    ∙ ap
        (λ d.
          is_running id (is_some (lookup id d))
            (is_some (find_service_instance_by_id (apply s o) id)) rest)
        same
    ∙ ap (λ b. is_running id (is_some (lookup id s.manifests)) b rest) (apply-found s o id v)
    ∙ sym (
        is_running-cons id (is_some (lookup id s.manifests))
          (is_some (find_service_instance_by_id s id)) o rest)

register-IsValid :
    (s : Services) (m : ServiceManifest) → IsValid s → IsValid (register_manifest s m)
unfolding register_manifest find_manifest_id
register-IsValid s m v id w e = elim (Option-cases (lookup m.id s.manifests)) [
  | inr (old, taken) ↦ v id w (ground (arith, e, taken))
  | inl free ↦ elim (Bool-cases (str_eq m.id id)) [
    | inl same ↦ ground (arith, e, free, same, lookup-insert m.id id m s.manifests, eq_iff m.id id)
    | inr apart ↦ v id w (ground (arith, e, free, apart, lookup-insert m.id id m s.manifests))
  ]
]

-- `addService`, with and without the start of the service, keeps every manifest under its own id.
pub add_service-IsValid :
    (s : Services) (m : ServiceManifest) (auto_start : Bool)
    → IsValid s
    → IsValid (add_service s m auto_start).0
unfolding add_service find_manifest_id
add_service-IsValid s m false v = register-IsValid s m v
add_service-IsValid s m true v =
    let registered = register_manifest s m in
    let same = apply-manifests registered (starts m.id) in
    λ id w e. register-IsValid s m v id w (ap (lookup id) (sym same) ∙ e)
