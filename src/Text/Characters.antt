-- ===== src/Text/Characters.antt =====
-- `find` and `find_from` for a text of one character.
use tactility_halo.Base.{
  ℕ, zero, suc, ◌+◌, ◌-◌, ◌≤◌, ◌<◌, ◌≡◌, ◌≢◌, refl, ap, ◌∙◌, [], ◌∷◌, none, some, arith, length,
  drop, get_elem?, length-drop,
}
use tactility_halo.Text.Find.{find_from_found, find_from_missing}
use tactility_halo.Text.{Str, find, find_from}

get_elem?-drop : (p j : ℕ) (s : Str) → get_elem? (drop p s) j ≡ get_elem? s (p + j)
get_elem?-drop zero j s = ap (get_elem? s) {y = zero + j} (omega arith)
get_elem?-drop (suc p) j [] = refl
get_elem?-drop (suc p) j (x ∷ s) =
    get_elem?-drop p j s ∙ ap (get_elem? (x ∷ s)) {x = suc (p + j)} {y = suc p + j} (omega arith)

find_char-none : (c : ℕ) (s : Str) (j : ℕ) → find (c ∷ []) s ≡ none → get_elem? s j ≢ some c
unfolding find
find_char-none c [] j h e = cc
find_char-none c (x ∷ s) zero h e = ground arith
find_char-none c (x ∷ s) (suc j) h e = find_char-none c s j (ground arith) e

find_char-before :
    (c : ℕ) (s : Str) (i j : ℕ) → find (c ∷ []) s ≡ some i → j < i → get_elem? s j ≢ some c
unfolding find
find_char-before c [] i j h lt e = cc
find_char-before c (x ∷ s) zero j h lt e = absurd (omega arith)
find_char-before c (x ∷ s) (suc i) zero h lt e = ground arith
find_char-before c (x ∷ s) (suc i) (suc j) h lt e =
    find_char-before c s i j (ground arith) (omega arith) e

find_char-lt : (c : ℕ) (s : Str) (i : ℕ) → find (c ∷ []) s ≡ some i → i < length s
unfolding find
find_char-lt c [] i h = cc
find_char-lt c (x ∷ s) zero h = omega arith
find_char-lt c (x ∷ s) (suc i) h = omega (arith, find_char-lt c s i (ground arith))

module _ (s : Str) (c p : ℕ) (le : p ≤ length s) where
  -- Behind `p` there is no such character.
  pub find_from-none : find_from s (c ∷ []) p ≡ none → (j : ℕ) → p ≤ j → get_elem? s j ≢ some c
  find_from-none h j pj e = find_char-none c (drop p s) (j - p) missing here
    where
      missing : find (c ∷ []) (drop p s) ≡ none
      missing = find_from_missing s (c ∷ []) p le h

      here : get_elem? (drop p s) (j - p) ≡ some c
      here = get_elem?-drop p (j - p) s ∙ (ap (get_elem? s) {y = j} (omega arith) ∙ e)

  pub find_from-some :
      (k : ℕ)
      → find_from s (c ∷ []) p ≡ some k
      → (p ≤ k) × (k < length s) × ((j : ℕ) → p ≤ j → j < k → get_elem? s j ≢ some c)
  find_from-some k h =
      let (i, found, at) = find_from_found s (c ∷ []) p k le h in
      let lt = find_char-lt c (drop p s) i found in
      (
        omega arith,
        omega (arith, length-drop p s),
        λ j pj jk e.
            find_char-before c (drop p s) i (j - p) found (omega arith)
              (get_elem?-drop p (j - p) s ∙ (ap (get_elem? s) {y = j} (omega arith) ∙ e)),
      )
