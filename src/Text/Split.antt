-- ===== src/Text/Split.antt =====
-- `split` against `join`, both of StringUtils.
use tactility_halo.Base.{
  ℕ, zero, suc, ◌+◌, ◌-◌, ◌≤◌, ◌<◌, ◌≡◌, ◌≢◌, refl, sym, subst, ap, ◌∙◌, ◌⊎◌, inl, inr, List, [],
  ◌∷◌, ◌++◌, none, some, arith, length, take, drop, All, Option-cases, length-drop, drop-drop,
}
use mathlib.Core.List.{append-nil, append_assoc}
use tactility_halo.Text.{
  Str, find, find_from, substr, split_end, split_loop, split, join, join_loop,
}
use tactility_halo.Text.Find.{find_from_found, find_from_missing, find_split, find_first, find-le}

-- The tokens of a text: each free of the delimiter, each but the last followed by one.
data Pieces (d : Str) : Str → List Str → Type 0 where
  stop : {s : Str} {ts : List Str} → s ≡ [] → ts ≡ [] → Pieces d s ts
  last : {s : Str} {ts : List Str} → find d s ≡ none → ts ≡ s ∷ [] → Pieces d s ts
  more :
      {s : Str} {ts us : List Str} (t r : Str)
      → find d t ≡ none
      → s ≡ t ++ (d ++ r)
      → us ≡ t ∷ ts
      → Pieces d r ts
      → Pieces d s us

split_end-Pieces :
    (d r : Str) (result : List Str)
    → find d r ≡ none
    → (ts : List Str) × (split_end r result ≡ result ++ ts) × Pieces d r ts
unfolding split_end
split_end-Pieces d [] result h = ([], sym (append-nil result), stop refl refl)
split_end-Pieces d (c ∷ r) result h = ((c ∷ r) ∷ [], refl, last h refl)

length-pos : (d : Str) → d ≢ [] → 0 < length d
length-pos [] ne = absurd (ne refl)
length-pos (x ∷ d) ne = omega arith

module _ (fuel : ℕ) (s d : Str) (p : ℕ) (result : List Str) where
  split_loop-stop :
      find_from s d p ≡ none
      → split_loop (suc fuel) s d p result ≡ some (split_end (drop p s) result)
  unfolding split_loop
  split_loop-stop e = rw (e, split_loop)

  split_loop-next :
      (k : ℕ)
      → find_from s d p ≡ some k
      → split_loop (suc fuel) s d p result
        ≡ split_loop fuel s d (k + length d) (result ++ substr s p (k - p) ∷ [])
  unfolding split_loop
  split_loop-next k e = rw (e, split_loop)

split_loop-Pieces :
    (fuel : ℕ) (s d : Str) (p : ℕ) (result : List Str)
    → d ≢ []
    → p ≤ length s
    → length s - p < fuel
    → (ts : List Str) × (split_loop fuel s d p result ≡ some (result ++ ts))
      × Pieces d (drop p s) ts
split_loop-Pieces zero s d p result ne le lt = absurd (omega arith)
split_loop-Pieces (suc fuel) s d p result ne le lt = elim (Option-cases (find_from s d p)) [
  | inl e ↦
      let (ts, eq, pieces) = split_end-Pieces d (drop p s) result (find_from_missing s d p le e) in
      (ts, split_loop-stop fuel s d p result e ∙ ap some eq, pieces)
  | inr (k, e) ↦
      let (j, found, at) = find_from_found s d p k le e in
      let fits = find-le d (drop p s) j found in
      let (ts, eq, pieces) =
        split_loop-Pieces fuel s d (k + length d) (result ++ substr s p (k - p) ∷ []) ne
          (omega (arith, length-drop p s)) (omega (arith, length-drop p s, length-pos d ne)) in
      (
        substr s p (k - p) ∷ ts,
        split_loop-next fuel s d p result k e
            ∙ (eq ∙ ap some (append_assoc result (substr s p (k - p) ∷ []) ts)),
        more (take j (drop p s)) (drop (j + length d) (drop p s))
            (find_first d (drop p s) j ne found)
            (find_split d (drop p s) j (j + length d) found refl)
            (ap (λ n. take n (drop p s) ∷ ts) (omega arith))
            (rw (drop-drop (k + length d) (j + length d) p s (omega arith)) pieces),
      )
]

join-cons : (t d : Str) (ts : List Str) → ts ≢ [] → join (t ∷ ts) d ≡ t ++ (d ++ join ts d)
unfolding join join_loop
join-cons t d [] ne = absurd (ne refl)
join-cons t d (u ∷ []) ne = refl
join-cons t d (u ∷ v ∷ ts) ne = refl

-- A text is its tokens joined, or that with one more delimiter at the end.
abbrev Rejoins : Str → Str → List Str → Type 0
Rejoins d s ts = (s ≡ join ts d) ⊎ (s ≡ join ts d ++ d)

Pieces-nil : {d s : Str} → Pieces d s [] → s ≡ []
Pieces-nil (stop e z) = e
Pieces-nil (last none_in z) = cc
Pieces-nil (more t r free e z p) = cc

Rejoins-cons :
    (d t r : Str) (ts : List Str)
    → (ts ≡ [] → r ≡ [])
    → Rejoins d r ts
    → Rejoins d (t ++ (d ++ r)) (t ∷ ts)
unfolding join
Rejoins-cons d t r [] empty e = inr (rw (empty refl, append-nil d))
Rejoins-cons d t r (u ∷ us) empty (inl e) = inl (rw (e, join-cons t d (u ∷ us) (λ z. cc)))
Rejoins-cons d t r (u ∷ us) empty (inr e) =
    inr (rw (e, join-cons t d (u ∷ us) (λ z. cc)) (simp append_assoc))

Pieces-Rejoins : (d : Str) {s : Str} {ts : List Str} → Pieces d s ts → Rejoins d s ts
unfolding join
Pieces-Rejoins d (stop e z) = inl (rw (e, z))
Pieces-Rejoins d (last none_in z) = inl (rw z)
Pieces-Rejoins d (more t r free e z p) =
    rw (e, z) (Rejoins-cons d t r _ (λ w. Pieces-nil (subst (Pieces d r) w p)) (Pieces-Rejoins d p))

Pieces-All : (d : Str) {s : Str} {ts : List Str} → Pieces d s ts → All (λ t. find d t ≡ none) ts
Pieces-All d (stop e z) = rw z tt
Pieces-All d (last none_in z) = rw z (none_in, tt)
Pieces-All d (more t r free e z p) = rw z (free, Pieces-All d p)

-- For every input and every non-empty delimiter the loop of `split` ends, no token holds the
-- delimiter, and the tokens joined by the delimiter give back the input, but for one delimiter
-- that the input may end with.
pub split-join :
    (input delimiter : Str)
    → delimiter ≢ []
    → (ts : List Str) × (split input delimiter ≡ some ts)
      × All (λ t. find delimiter t ≡ none) ts
      × ((input ≡ join ts delimiter) ⊎ (input ≡ join ts delimiter ++ delimiter))
unfolding split
split-join input delimiter ne =
    let (ts, eq, pieces) =
      split_loop-Pieces (length input + 1) input delimiter 0 [] ne (omega arith) (omega arith) in
    (ts, eq, Pieces-All delimiter pieces, Pieces-Rejoins delimiter pieces)
