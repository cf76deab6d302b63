-- ===== src/Text/Paths.antt =====
-- The parent and the last segment of a path.
use tactility_halo.Base.{
  ℕ, zero, suc, ◌≡◌, ◌≢◌, refl, ap, ◌⊎◌, inl, inr, true, false, [], ◌∷◌, ◌++◌, none, some, arith,
  length, take, drop, All, Option-cases,
}
use tactility_halo.Text.{Str, slash, find_last_of, get_path_parent, get_last_path_segment}

abbrev pub IsFreeOf : ℕ → Str → Type 0
IsFreeOf c = All (λ x. x ≢ c)

pub find_last_of-none : (c : ℕ) (s : Str) → find_last_of c s ≡ none → IsFreeOf c s
unfolding find_last_of
find_last_of-none c [] h = tt
find_last_of-none c (x ∷ s) h = elim (Option-cases (find_last_of c s)) [
  | inl e ↦ (λ z. ground arith, find_last_of-none c s e)
  | inr (i, e) ↦ absurd (ground arith)
]

pub find_last_of-free : (c : ℕ) (s : Str) → IsFreeOf c s → find_last_of c s ≡ none
unfolding find_last_of
find_last_of-free c [] f = refl
find_last_of-free c (x ∷ s) f = ground (arith, find_last_of-free c s f.1, f.0)

-- What stands before and behind the last occurrence.
pub find_last_of-some :
    (c : ℕ) (s : Str) (i : ℕ)
    → find_last_of c s ≡ some i
    → (s ≡ take i s ++ c ∷ drop (suc i) s) × IsFreeOf c (drop (suc i) s)
unfolding find_last_of
find_last_of-some c [] i h = cc
find_last_of-some c (x ∷ s) i h = elim (Option-cases (find_last_of c s)) [
  | inl e ↦
      let z : i ≡ 0 = ground arith in
      let q : x ≡ c = ground arith in rw z (ap (λ y. y ∷ s) q, find_last_of-none c s e)
  | inr (j, e) ↦
      let z : i ≡ suc j = ground arith in
      let (cut, free) = find_last_of-some c s j e in rw z (ap (◌∷◌ x) cut, free)
]

-- The last occurrence is the one behind which there is none.
pub find_last_of-append :
    (c : ℕ) (s t : Str) → IsFreeOf c t → find_last_of c (s ++ c ∷ t) ≡ some (length s)
unfolding find_last_of
find_last_of-append c [] t f = ground (arith, find_last_of-free c t f)
find_last_of-append c (x ∷ s) t f = ground (arith, find_last_of-append c s t f)

module _ (path output : Str) where
  no_parent : find_last_of slash path ≡ none → get_path_parent path output ≡ (false, output)
  unfolding get_path_parent
  no_parent e = rw (e, get_path_parent)

  pub root_parent :
      find_last_of slash path ≡ some 0 → get_path_parent path output ≡ (true, slash ∷ [])
  unfolding get_path_parent
  root_parent e = rw (e, get_path_parent)

  pub below_parent :
      (i : ℕ)
      → find_last_of slash path ≡ some (suc i)
      → get_path_parent path output ≡ (true, take (suc i) path)
  unfolding get_path_parent
  below_parent i e = rw (e, get_path_parent)

no_segment : (path : Str) → find_last_of slash path ≡ none → get_last_path_segment path ≡ []
unfolding get_last_path_segment
no_segment path e = rw (e, get_last_path_segment)

pub segment :
    (path : Str) (i : ℕ)
    → find_last_of slash path ≡ some i
    → get_last_path_segment path ≡ drop (suc i) path
unfolding get_last_path_segment
segment path i e = rw (e, get_last_path_segment) (ap (λ n. drop n path) {y = suc i} (omega arith))

-- On every path: without a slash there is neither a parent nor a segment, and the output argument
-- is left alone. Otherwise the parent, a slash and the last segment are the path (or the parent is
-- the root, and a slash and the segment are the path), and the segment holds no slash.
pub path_parts :
    (path output : Str)
    → (IsFreeOf slash path
        × (get_path_parent path output ≡ (false, output))
        × (get_last_path_segment path ≡ []))
      ⊎ ((parent : Str) × (get_path_parent path output ≡ (true, parent))
          × IsFreeOf slash (get_last_path_segment path)
          × ((path ≡ parent ++ slash ∷ get_last_path_segment path)
              ⊎ ((parent ≡ slash ∷ []) × (path ≡ slash ∷ get_last_path_segment path))))
path_parts path output = elim (Option-cases (find_last_of slash path)) [
  | inl e ↦ inl (find_last_of-none slash path e, no_parent path output e, no_segment path e)
  | inr (zero, e) ↦
      let (cut, free) = find_last_of-some slash path 0 e in
      inr (
        slash ∷ [],
        root_parent path output e,
        rw (segment path 0 e) free,
        inr (refl, rw (segment path 0 e) cut),
      )
  | inr (suc i, e) ↦
      let (cut, free) = find_last_of-some slash path (suc i) e in
      inr (
        take (suc i) path,
        below_parent path output i e,
        rw (segment path (suc i) e) free,
        inl (rw (segment path (suc i) e) cut),
      )
]
