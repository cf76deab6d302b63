-- ===== src/Files/Tests.antt =====
-- Runs of File.cpp at fixed inputs.
use tactility_halo.Base.{
  ℕ, ◌≤◌, ◌<◌, ◌≡◌, refl, ◌⊎◌, inl, inr, Bool, true, false, List, [], ◌∷◌, none, some, arith, ◌||◌,
  if◌then◌else◌, ==_self, Bool-cases, take, get_elem?,
}
use tactility_halo.Text.{Str, find_from, find}
use tactility_halo.Files.{
  create_loop, find_or_create_directory_internal, separator, strcmp_eq, Dirent, tt_dt_dir, Mkdir,
  created, exists, FileSystem, first_index, find_or_create_directory, SizeCalls,
  read_binary_internal, get_size, read_content, read_loop, fread, write_at,
}
use tactility_halo.Files.Directories.{find_or_create_directory_created}
use tactility_halo.Files.Reading.{read_binary_internal_whole}

abbrev sd : Str
sd = b'/' ∷ b's' ∷ []

abbrev apps : Str
apps = b'a' ∷ b'p' ∷ []

abbrev folder : Str → Dirent
folder name = record { d_type = tt_dt_dir; d_name = name }

abbrev plain : Str → Dirent
plain name = record { d_type = 8; d_name = name }

-- A file system on which every path can be made a directory: the list of the directories.
holds : Str → List Str → Bool
holds path [] = false
holds path (d ∷ ds) = strcmp_eq d path || holds path ds

make : List Str → Str → List Str × Mkdir
unfolding holds
make s path = if holds path s then (s, exists) else (path ∷ s, created)

strcmp_eq_self : (s : Str) → strcmp_eq s s ≡ true
unfolding strcmp_eq
strcmp_eq_self [] = refl
strcmp_eq_self (x ∷ xs) = ground (arith, ==_self x, strcmp_eq_self xs)

make_creates :
    (s : List Str) (path : Str) → (make s path).1 ≡ created → holds path (make s path).0 ≡ true
unfolding make holds
make_creates s path e = elim (Bool-cases (holds path s)) [
  | inl old ↦ absurd (ground (arith, old))
  | inr new ↦ ground (arith, new, strcmp_eq_self path)
]

make_keeps :
    (s : List Str) (path other : Str) → holds other s ≡ true → holds other (make s path).0 ≡ true
unfolding make holds
make_keeps s path other e = elim (Bool-cases (holds path s)) [
  | inl old ↦ ground (arith, old, e)
  | inr new ↦ ground (arith, new, e)
]

-- A file system that is the list of its directories, on which every path can be created.
abbrev memory : FileSystem
memory = record {
  State = List Str;
  mkdir = make;
  is_dir = λ s path. holds path s;
  mkdir_creates = make_creates;
  mkdir_keeps = make_keeps;
}

find_or_create_directory_run :
    find_or_create_directory memory [] (b'/' ∷ b'a' ∷ b'/' ∷ b'b' ∷ [])
    ≡ some ((b'/' ∷ b'a' ∷ b'/' ∷ b'b' ∷ []) ∷ (b'/' ∷ b'a' ∷ []) ∷ [], true)
unfolding find_or_create_directory make create_loop find_from first_index find
    find_or_create_directory_internal strcmp_eq
find_or_create_directory_run = refl

find_or_create_directory_created_example :
    (s' : List Str) × (r : Bool) × (find_or_create_directory memory [] sd ≡ some (s', r))
    × (r ≡ true
        → (holds sd s' ≡ true)
          × ((j : ℕ)
              → first_index sd ≤ j
              → get_elem? sd j ≡ some separator
              → holds (take j sd) s' ≡ true))
find_or_create_directory_created_example =
    find_or_create_directory_created memory [] sd (λ e. ground (arith, e))

abbrev all_calls : SizeCalls
all_calls = record { seek_end = true; tell = true; seek_back = true }

abbrev greeting : List ℕ
greeting = 104 ∷ 105 ∷ []

-- Each `fread` delivers one byte.
read_binary_internal_whole_example :
    ((read_binary_internal all_calls (λ i n. 1) (some greeting) ≡ some none)
      ⊎ (read_binary_internal all_calls (λ i n. 1) (some greeting) ≡ some (some (greeting, 2))))
    × (true ≡ true
        → true ≡ true
        → true ≡ true
        → ((i n : ℕ) → 0 < n → 0 < 1)
        → read_binary_internal all_calls (λ i n. 1) (some greeting) ≡ some (some (greeting, 2)))
read_binary_internal_whole_example = read_binary_internal_whole all_calls (λ i n. 1) greeting

read_greeting :
    read_binary_internal all_calls (λ i n. 1) (some greeting) ≡ some (some (greeting, 2))
unfolding read_binary_internal get_size read_content read_loop fread write_at
read_greeting = refl
