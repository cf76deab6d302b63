-- ===== src/Files/Directories.antt =====
-- The creation of the directories of a path: `findOrCreateDirectory` of File.cpp.
use tactility_halo.Base.{
  ℕ, zero, suc, ◌+◌, ◌-◌, ◌≤◌, ◌<◌, ◌≡◌, ◌≢◌, refl, ◌∙◌, inl, inr, Bool, true, false, [], ◌∷◌, none,
  some, arith, length, take, get_elem?, lt_or_le, Bool-cases, Option-cases,
}
use tactility_halo.Text.{Str, find_from}
use tactility_halo.Text.Characters.{find_from-none, find_from-some}
use tactility_halo.Files.{
  separator, FileSystem, Mkdir, created, exists, failed, find_or_create_directory_internal,
  create_loop, first_index, find_or_create_directory,
}

module _ (fs : FileSystem) where
  open fs use {State, mkdir, is_dir, mkdir_creates, mkdir_keeps}

  internal_creates :
      (s : State) (path : Str)
      → (find_or_create_directory_internal fs s path).1 ≡ true
      → is_dir (find_or_create_directory_internal fs s path).0 path ≡ true
  unfolding find_or_create_directory_internal
  internal_creates s path h = by_result (mkdir s path).1 refl h
    where
      by_result :
          (r : Mkdir)
          → (mkdir s path).1 ≡ r
          → (elim r [ created ↦ true | exists ↦ is_dir (mkdir s path).0 path | failed ↦ false ])
            ≡ true
          → is_dir (mkdir s path).0 path ≡ true
      by_result created e h = mkdir_creates s path e
      by_result exists e h = h
      by_result failed e h = cc

  internal_keeps :
      (s : State) (path other : Str)
      → is_dir s other ≡ true
      → is_dir (find_or_create_directory_internal fs s path).0 other ≡ true
  unfolding find_or_create_directory_internal
  internal_keeps s path other h = mkdir_keeps s path other h

  module _ (path : Str) where
    -- Every separator from `first` on and before `p` ends the name of a directory.
    abbrev Covered : ℕ → State → ℕ → Type 0
    Covered first s p =
        (j : ℕ)
        → first ≤ j
        → j < p
        → get_elem? path j ≡ some separator
        → is_dir s (take j path) ≡ true

    abbrev Created : ℕ → State → Type 0
    Created first s =
        (is_dir s path ≡ true)
        × ((j : ℕ) → first ≤ j → get_elem? path j ≡ some separator → is_dir s (take j path) ≡ true)

    module _ (fuel : ℕ) (s : State) (i : ℕ) where
      create_loop-fails :
          (find_or_create_directory_internal fs s (take i path)).1 ≡ false
          → create_loop fs (suc fuel) s path (some i)
            ≡ some ((find_or_create_directory_internal fs s (take i path)).0, false)
      unfolding create_loop
      create_loop-fails e = rw (e, create_loop)

      create_loop-next :
          (find_or_create_directory_internal fs s (take i path)).1 ≡ true
          → create_loop fs (suc fuel) s path (some i)
            ≡ create_loop fs fuel
                (find_or_create_directory_internal fs s (take i path)).0
                path
                (find_from path (separator ∷ []) (i + 1))
      unfolding create_loop
      create_loop-next e = rw (e, create_loop)

    create_loop-last :
        (fuel : ℕ) (s : State)
        → create_loop fs (suc fuel) s path none ≡ some (find_or_create_directory_internal fs s path)
    unfolding create_loop
    create_loop-last fuel s = refl

    Covered-next :
        (first : ℕ) (s : State) (p k : ℕ)
        → p ≤ k
        → ((j : ℕ) → p ≤ j → j < k → get_elem? path j ≢ some separator)
        → Covered first s p
        → (find_or_create_directory_internal fs s (take k path)).1 ≡ true
        → Covered first (find_or_create_directory_internal fs s (take k path)).0 (k + 1)
    Covered-next first s p k pk between cov good j fj jk at = elim (lt_or_le j p) [
      | inl before ↦ internal_keeps s (take k path) (take j path) (cov j fj before at)
      | inr behind ↦ elim (lt_or_le j k) [
        | inl inside ↦ absurd (between j behind inside at)
        | inr here ↦
            let same : j ≡ k = omega arith in rw same (internal_creates s (take k path) good)
      ]
    ]

    create_loop-Created :
        (first fuel : ℕ) (s : State) (p : ℕ)
        → p ≤ length path
        → length path - p < fuel
        → Covered first s p
        → (s' : State) × (r : Bool) × (create_loop fs fuel s path
              (find_from path (separator ∷ []) p)
            ≡ some (s', r))
          × (r ≡ true → Created first s')
    create_loop-Created first zero s p le lt cov = absurd (omega arith)
    create_loop-Created first (suc fuel) s p le lt cov =
        elim (Option-cases (find_from path (separator ∷ []) p)) [
          | inl e ↦ (
            (find_or_create_directory_internal fs s path).0,
            (find_or_create_directory_internal fs s path).1,
            rw e (create_loop-last fuel s),
            λ ok. (
              internal_creates s path ok,
              λ j fj at. elim (lt_or_le j p) [
                | inl before ↦ internal_keeps s path (take j path) (cov j fj before at)
                | inr behind ↦ absurd (find_from-none path separator p le e j behind at)
              ],
            ),
          )
          | inr (k, e) ↦
              let (pk, kl, between) = find_from-some path separator p le k e in
              let s' = (find_or_create_directory_internal fs s (take k path)).0 in
              elim (Bool-cases (find_or_create_directory_internal fs s (take k path)).1) [
                | inr bad ↦ (s', false, rw e (create_loop-fails fuel s k bad), λ ok. cc)
                | inl good ↦
                    let (s'', r, eq, done) =
                      create_loop-Created first fuel s' (k + 1) (omega arith) (omega arith)
                        (Covered-next first s p k pk between cov good) in
                    (s'', r, rw e (create_loop-next fuel s k good ∙ eq), done)
              ]
        ]

first_index-le : (c : ℕ) (rest : Str) → first_index (c ∷ rest) ≤ suc (length rest)
unfolding first_index
first_index-le c rest = ground arith

-- On every file system that keeps to POSIX, and for every non-empty path: the call ends. If it
-- returns true, then the path is a directory, and so is every part of it before a separator,
-- a separator at the very beginning excepted.
pub find_or_create_directory_created :
    (fs : FileSystem) (s : fs.State) (path : Str)
    → path ≢ []
    → (s' : fs.State) × (r : Bool) × (find_or_create_directory fs s path ≡ some (s', r))
      × (r ≡ true
          → (fs.is_dir s' path ≡ true)
            × ((j : ℕ)
                → first_index path ≤ j
                → get_elem? path j ≡ some separator
                → fs.is_dir s' (take j path) ≡ true))
unfolding find_or_create_directory
find_or_create_directory_created fs s [] ne = absurd (ne refl)
find_or_create_directory_created fs s (c ∷ rest) ne =
    create_loop-Created fs (c ∷ rest) (first_index (c ∷ rest)) (length (c ∷ rest) + 1) s
      (first_index (c ∷ rest)) (first_index-le c rest) (omega arith)
      (λ j fj jf at. absurd (omega arith))
