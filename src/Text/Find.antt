-- ===== src/Text/Find.antt =====
-- What `find` finds: the first occurrence of a non-empty text.
use tactility_halo.Base.{
  le→leb, ℕ, zero, suc, ◌+◌, ◌≤◌, ◌≡◌, ◌≢◌, refl, ap, ◌⊎◌, inl, inr, true, false, [], ◌∷◌, ◌++◌,
  none, some, arith, length, take, drop, take-nil, drop-nil, Bool-cases, Option-cases,
}
use tactility_halo.Text.{find_from, Str, starts_with, find}

pub starts_with_split : (d s : Str) → starts_with d s ≡ true → s ≡ d ++ drop (length d) s
unfolding starts_with
starts_with_split [] s h = refl
starts_with_split (x ∷ d) [] h = cc
starts_with_split (x ∷ d) (y ∷ s) h = ground (arith, starts_with_split d s)

starts_with-take : (d s : Str) (n : ℕ) → starts_with d (take n s) ≡ true → starts_with d s ≡ true
unfolding starts_with
starts_with-take [] s n h = refl
starts_with-take (x ∷ d) [] zero h = cc
starts_with-take (x ∷ d) [] (suc n) h = cc
starts_with-take (x ∷ d) (y ∷ s) zero h = cc
starts_with-take (x ∷ d) (y ∷ s) (suc n) h = ground (arith, starts_with-take d s n)

find-cons :
    (d : Str) (y : ℕ) (s : Str) (k : ℕ)
    → find d (y ∷ s) ≡ some k
    → ((starts_with d (y ∷ s) ≡ true) × (k ≡ 0))
      ⊎ ((j : ℕ) × (starts_with d (y ∷ s) ≡ false) × (find d s ≡ some j) × (k ≡ suc j))
unfolding find
find-cons d y s k h = elim (Bool-cases (starts_with d (y ∷ s))) [
  | inl e ↦ inl (e, ground arith)
  | inr e ↦ elim (Option-cases (find d s)) [
    | inl none_later ↦ absurd (ground arith)
    | inr (j, later) ↦ inr (j, e, later, ground arith)
  ]
]

find-nil : (d : Str) → d ≢ [] → find d [] ≡ none
unfolding find
find-nil [] ne = absurd (ne refl)
find-nil (x ∷ d) ne = refl

find-nil-split : (d : Str) (i : ℕ) → find d [] ≡ some i → (d ≡ []) × (i ≡ 0)
unfolding find
find-nil-split [] i h = (refl, ground arith)
find-nil-split (x ∷ d) i h = cc

-- The text around the occurrence; `n` is the position behind it.
pub find_split :
    (d s : Str) (i n : ℕ) → find d s ≡ some i → n ≡ i + length d → s ≡ take i s ++ (d ++ drop n s)
find_split d [] i n h e = let (dz, iz) = find-nil-split d i h in rw (dz, iz, drop-nil n)
find_split d (y ∷ s) i n h e = elim (find-cons d y s i h) [
  | inl (here, z) ↦
      let m : n ≡ length d = omega arith in rw (z, m) (starts_with_split d (y ∷ s) here)
  | inr (j, later, found, z) ↦
      let m : n ≡ suc (j + length d) = omega arith in
      rw (z, m) (ap (◌∷◌ y) (find_split d s j (j + length d) found refl))
]

find_first_later :
    (d : Str) (y : ℕ) (s : Str) (j : ℕ)
    → starts_with d (y ∷ s) ≡ false
    → find d (take j s) ≡ none
    → find d (y ∷ take j s) ≡ none
unfolding find
find_first_later d y s j later rest = elim (Bool-cases (starts_with d (y ∷ take j s))) [
  | inl e ↦ absurd (ground (arith, starts_with-take d (y ∷ s) (suc j) e))
  | inr e ↦ rw (e, rest)
]

-- No occurrence begins before the one that `find` finds.
pub find_first : (d s : Str) (i : ℕ) → d ≢ [] → find d s ≡ some i → find d (take i s) ≡ none
find_first d [] i ne h = rw (take-nil i) (find-nil d ne)
find_first d (y ∷ s) i ne h = elim (find-cons d y s i h) [
  | inl (here, z) ↦ rw z (find-nil d ne)
  | inr (j, later, found, z) ↦ rw z (find_first_later d y s j later (find_first d s j ne found))
]

starts_with-le : (d s : Str) → starts_with d s ≡ true → length d ≤ length s
unfolding starts_with
starts_with-le [] s h = omega arith
starts_with-le (x ∷ d) [] h = cc
starts_with-le (x ∷ d) (y ∷ s) h = ground (arith, starts_with-le d s)

-- The occurrence fits into the text that is searched.
pub find-le : (d s : Str) (j : ℕ) → find d s ≡ some j → j + length d ≤ length s
find-le d [] j h = let (dz, jz) = find-nil-split d j h in rw (dz, jz) (omega arith)
find-le d (y ∷ s) j h = elim (find-cons d y s j h) [
  | inl (here, z) ↦ omega (arith, starts_with-le d (y ∷ s) here)
  | inr (i, later, found, z) ↦ omega (arith, find-le d s i found)
]

-- A search from a position is a search of the rest.
pub find_from_found :
    (s d : Str) (p k : ℕ)
    → p ≤ length s
    → find_from s d p ≡ some k
    → (j : ℕ) × (find d (drop p s) ≡ some j) × (k ≡ p + j)
unfolding find_from
find_from_found s d p k h found = elim (Option-cases (find d (drop p s))) [
  | inl e ↦ absurd (ground (arith, le→leb p (length s) h))
  | inr (j, e) ↦ (j, e, ground (arith, le→leb p (length s) h))
]

pub find_from_missing :
    (s d : Str) (p : ℕ) → p ≤ length s → find_from s d p ≡ none → find d (drop p s) ≡ none
unfolding find_from
find_from_missing s d p h found = ground (arith, le→leb p (length s) h)
