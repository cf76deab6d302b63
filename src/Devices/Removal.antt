-- ===== src/Devices/Removal.antt =====
-- The removal of a device.
use tactility_halo.Base.{
  ℕ, ◌+◌, ◌≡◌, ◌≢◌, ◌∙◌, refl, ap, subst, sym, ◌⊎◌, inl, inr, true, false, List, [], ◌∷◌, ◌++◌,
  none, drop_all, arith, ◌==◌, if◌then◌else◌, length, All, Bool-cases, append-nil,
}
use tactility_halo.Devices.{
  Device, find_devices, find_device, find_device_by_id, remove_if, deregister_device,
}
use tactility_halo.Devices.Registry.{IsDistinct, find_device-cons}

remove_if-none : (id : ℕ) (ds : List Device) → All (λ e. e.id ≢ id) ds → remove_if id ds ≡ (ds, 0)
unfolding remove_if
remove_if-none id [] h = refl
remove_if-none id (d ∷ rest) h =
    let apart : (d.id == id) ≡ false = ground (arith, h.0) in
    rw (apart, remove_if) (ap (λ x. (d ∷ x.0, x.1)) (remove_if-none id rest h.1))

-- The list without the device of that id.
pub without : ℕ → List Device → List Device
without id [] = []
without id (d ∷ rest) = let kept = without id rest in if d.id == id then kept else d ∷ kept

without-none : (id : ℕ) (ds : List Device) → All (λ e. e.id ≢ id) ds → without id ds ≡ ds
unfolding without
without-none id [] h = refl
without-none id (d ∷ rest) h =
    let apart : (d.id == id) ≡ false = ground (arith, h.0) in
    rw (apart, without) (ap (◌∷◌ d) (without-none id rest h.1))

remove_if-same :
    (id : ℕ) (d : Device) (rest : List Device)
    → (d.id == id) ≡ true
    → (remove_if id (d ∷ rest) ≡ ((remove_if id rest).0, (remove_if id rest).1 + 1))
      × (without id (d ∷ rest) ≡ without id rest)
unfolding remove_if without
remove_if-same id d rest same = (rw (same, remove_if), rw (same, without))

remove_if-apart :
    (id : ℕ) (d : Device) (rest : List Device)
    → (d.id == id) ≡ false
    → (remove_if id (d ∷ rest) ≡ (d ∷ (remove_if id rest).0, (remove_if id rest).1))
      × (without id (d ∷ rest) ≡ d ∷ without id rest)
unfolding remove_if without
remove_if-apart id d rest apart = (rw (apart, remove_if), rw (apart, without))

same_id :
    (k id : ℕ) (rest : List Device) → k ≡ id → All (λ e. e.id ≢ k) rest → All (λ e. e.id ≢ id) rest
same_id k id [] e h = tt
same_id k id (x ∷ rest) e h = (λ z. h.0 (z ∙ sym e), same_id k id rest e h.1)

-- With distinct ids at most one place is left over.
remove_if-distinct :
    (id : ℕ) (ds : List Device)
    → IsDistinct ds
    → ((remove_if id ds ≡ (ds, 0)) × (without id ds ≡ ds)) ⊎ (remove_if id ds ≡ (without id ds, 1))
remove_if-distinct id [] h = inl (unfold remove_if in refl, unfold without in refl)
remove_if-distinct id (d ∷ rest) h = elim (Bool-cases (d.id == id)) [
  | inl same ↦
      let (removed, left) = remove_if-same id d rest same in
      let fresh = same_id d.id id rest (ground arith) h.0 in
      inr (
        removed
        ∙ ap (λ x. (x.0, x.1 + 1)) (remove_if-none id rest fresh)
        ∙ ap (λ x. (x, 1)) (sym (left ∙ without-none id rest fresh)))
  | inr apart ↦
      let (removed, left) = remove_if-apart id d rest apart in
      elim (remove_if-distinct id rest h.1) [
        | inl (none_removed, whole) ↦
            inl (removed ∙ ap (λ x. (d ∷ x.0, x.1)) none_removed, left ∙ ap (◌∷◌ d) whole)
        | inr one_removed ↦
            inr (removed ∙ ap (λ x. (d ∷ x.0, x.1)) one_removed ∙ ap (λ x. (x, 1)) (sym left))
      ]
]

deregister-without :
    (left_over : ℕ → List Device) (d : Device) (ds : List Device)
    → ((n : ℕ) → length (left_over n) ≡ n)
    → IsDistinct ds
    → deregister_device left_over d ds ≡ without d.id ds
unfolding deregister_device
deregister-without left_over d ds sized h = elim (remove_if-distinct d.id ds h) [
  | inl (none_removed, whole) ↦ rw (none_removed, deregister_device) (sym whole)
  | inr one_removed ↦
      let erased = drop_all 1 (left_over 1) (omega (arith, sized 1)) in
      rw (one_removed, deregister_device)
        (ap (λ x. without d.id ds ++ x) erased ∙ append-nil (without d.id ds))
]

find-without :
    (id k : ℕ) (ds : List Device)
    → find_device_by_id id (without k ds) ≡ (if id == k then none else find_device_by_id id ds)
find-without id k [] = elim (Bool-cases (id == k)) [
  | inl same ↦ rw same (unfold without in unfold find_device in unfold find_devices in refl)
  | inr apart ↦ rw apart (unfold without in refl)
]
find-without id k (d ∷ rest) = elim (Bool-cases (d.id == k)) [
  | inl same ↦
      ground
        (arith, remove_if-same k d rest same, find-without id k rest, find_device-cons id d rest)
  | inr apart ↦ ground (
    arith,
    remove_if-apart k d rest apart,
    find-without id k rest,
    find_device-cons id d rest,
    find_device-cons id d (without k rest),
  )
]

All-without :
    (k id : ℕ) (ds : List Device) → All (λ e. e.id ≢ id) ds → All (λ e. e.id ≢ id) (without k ds)
unfolding without
All-without k id [] h = tt
All-without k id (d ∷ rest) h = elim (Bool-cases (d.id == k)) [
  | inl same ↦ rw (same, without) (All-without k id rest h.1)
  | inr apart ↦ rw (apart, without) (h.0, All-without k id rest h.1)
]

IsDistinct-without : (k : ℕ) (ds : List Device) → IsDistinct ds → IsDistinct (without k ds)
unfolding without
IsDistinct-without k [] h = tt
IsDistinct-without k (d ∷ rest) h = elim (Bool-cases (d.id == k)) [
  | inl same ↦ rw (same, without) (IsDistinct-without k rest h.1)
  | inr apart ↦ rw (apart, without) (All-without k d.id rest h.0, IsDistinct-without k rest h.1)
]

-- Where the ids of the registered devices are distinct, whatever `std::remove_if` leaves behind the
-- elements that it keeps: deregistering keeps them distinct, its device is not found by its id any
-- more, and every other id finds what it found before.
pub deregister_device_lem :
    (left_over : ℕ → List Device) (d : Device) (ds : List Device) (id : ℕ)
    → ((n : ℕ) → length (left_over n) ≡ n)
    → IsDistinct ds
    → IsDistinct (deregister_device left_over d ds)
      × (find_device_by_id id (deregister_device left_over d ds)
          ≡ (if id == d.id then none else find_device_by_id id ds))
deregister_device_lem left_over d ds id sized h =
    let e = deregister-without left_over d ds sized h in
    (
      subst IsDistinct (sym e) (IsDistinct-without d.id ds h),
      ap (find_device_by_id id) e ∙ find-without id d.id ds,
    )
