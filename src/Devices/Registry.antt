-- ===== src/Devices/Registry.antt =====
-- The ids of the registered devices.
use tactility_halo.Base.{
  ℕ, ◌≡◌, ◌≢◌, ◌∙◌, refl, ap, subst, sym, inl, inr, false, List, [], ◌∷◌, ◌++◌, none, some,
  Option-cases, arith, ◌==◌, if◌then◌else◌, All, All-append, Bool-cases,
}
use tactility_halo.Devices.{Device, find_devices, find_device, find_device_by_id, register_device}

abbrev pub IsDistinct : List Device → Type 0
IsDistinct [] = Unit
IsDistinct (d ∷ rest) = All (λ e. e.id ≢ d.id) rest × IsDistinct rest

pub find_device-cons :
    (id : ℕ) (d : Device) (rest : List Device)
    → find_device_by_id id (d ∷ rest) ≡ (if d.id == id then some d else find_device_by_id id rest)
unfolding find_device find_devices
find_device-cons id d rest = elim (Bool-cases (d.id == id)) [
  | inl same ↦ ground (arith, same)
  | inr apart ↦ ground (arith, apart)
]

-- A device that is not found has an id of its own.
find_device-none :
    (id : ℕ) (ds : List Device) → find_device_by_id id ds ≡ none → All (λ e. e.id ≢ id) ds
find_device-none id [] h = tt
find_device-none id (d ∷ rest) h = elim (Bool-cases (d.id == id)) [
  | inl same ↦ absurd (ground (arith, find_device-cons id d rest))
  | inr apart ↦ (
    λ e. ground (arith, e),
    find_device-none id rest (ground (arith, find_device-cons id d rest)),
  )
]

none-find_device :
    (id : ℕ) (ds : List Device) → All (λ e. e.id ≢ id) ds → find_device_by_id id ds ≡ none
unfolding find_device find_devices
none-find_device id [] h = refl
none-find_device id (d ∷ rest) h =
    let apart : (d.id == id) ≡ false = ground (arith, h.0) in
    find_device-cons id d rest ∙ rw apart (none-find_device id rest h.1)

IsDistinct-snoc :
    (ds : List Device) (d : Device)
    → IsDistinct ds
    → All (λ e. e.id ≢ d.id) ds
    → IsDistinct (ds ++ d ∷ [])
IsDistinct-snoc [] d h f = (tt, tt)
IsDistinct-snoc (e ∷ ds) d h f = (
  All-append (λ x. x.id ≢ e.id) ds (d ∷ []) h.0 (λ z. f.0 (sym z), tt),
  IsDistinct-snoc ds d h.1 f.1,
)

register_new :
    (d : Device) (ds : List Device)
    → find_device_by_id d.id ds ≡ none
    → register_device d ds ≡ ds ++ d ∷ []
unfolding register_device
register_new d ds e = rw (e, register_device)

register_old :
    (d old : Device) (ds : List Device)
    → find_device_by_id d.id ds ≡ some old
    → register_device d ds ≡ ds
unfolding register_device
register_old d old ds e = rw (e, register_device)

register-IsDistinct :
    (d : Device) (ds : List Device) → IsDistinct ds → IsDistinct (register_device d ds)
register-IsDistinct d ds h = elim (Option-cases (find_device_by_id d.id ds)) [
  | inl free ↦
      subst IsDistinct (sym (register_new d ds free))
        (IsDistinct-snoc ds d h (find_device-none d.id ds free))
  | inr (old, taken) ↦ subst IsDistinct (sym (register_old d old ds taken)) h
]

find-append :
    (id : ℕ) (ds : List Device) (d : Device)
    → find_device_by_id id (ds ++ d ∷ []) ≡ elim (find_device_by_id id ds) [
      | none ↦ (if d.id == id then some d else none)
      | some old ↦ some old
    ]
unfolding find_device find_devices
find-append id [] d = find_device-cons id d []
find-append id (x ∷ ds) d =
    ground
      (arith, find_device-cons id x (ds ++ d ∷ []), find_device-cons id x ds, find-append id ds d)

find-register :
    (d : Device) (ds : List Device) (id : ℕ)
    → find_device_by_id id (register_device d ds) ≡ elim (find_device_by_id id ds) [
      | none ↦ (if d.id == id then some d else none)
      | some old ↦ some old
    ]
find-register d ds id = elim (Option-cases (find_device_by_id d.id ds)) [
  | inl free ↦ ap (find_device_by_id id) (register_new d ds free) ∙ find-append id ds d
  | inr (old, taken) ↦
      ap (find_device_by_id id) (register_old d old ds taken) ∙ elim (Bool-cases (d.id == id)) [
        | inl same ↦
            let there : find_device_by_id id ds ≡ some old =
              ap (λ k. find_device_by_id k ds) (ground arith) ∙ taken in
            rw there
        | inr apart ↦ ground (arith, apart)
      ]
]

-- Registering keeps the ids of the registered devices distinct and never replaces a device: what
-- was found by an id is found by it still, and under a free id the new device is found.
pub register_device_lem :
    (d : Device) (ds : List Device) (id : ℕ)
    → IsDistinct ds
    → IsDistinct (register_device d ds)
      × (find_device_by_id id (register_device d ds) ≡ elim (find_device_by_id id ds) [
        | none ↦ (if d.id == id then some d else none)
        | some old ↦ some old
      ])
register_device_lem d ds id h = (register-IsDistinct d ds h, find-register d ds id)
