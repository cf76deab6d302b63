-- ===== src/Text.antt =====
-- TactilityCore/Source/StringUtils.cpp, and `lowercase` of its header. A `std::string` is the list
-- of its bytes. Below are the members of `std::string` that the code calls, then its functions.
pub mod Paths
pub mod Find
pub mod Characters
pub mod Split
pub mod Hex
pub mod Tests
use mathlib.Core.Option
use tactility_halo.Base.{
  ℕ, zero, suc, ◌+◌, ◌-◌, Bool, true, false, ◌&&◌, ◌||◌, List, [], ◌∷◌, ◌++◌, map, Option, none,
  some, leb, ◌==◌, if◌then◌else◌, length, take, drop,
}

abbrev pub Str : Type 0
Str = List ℕ

-- `npos` is `none`.
unfoldable pub find_last_of : ℕ → Str → Option ℕ
find_last_of c [] = none
find_last_of c (x ∷ xs) = elim (find_last_of c xs) [
  | some i ↦ some (suc i)
  | none ↦ if x == c then some 0 else none
]

unfoldable pub starts_with : Str → Str → Bool
starts_with [] s = true
starts_with (d ∷ ds) [] = false
starts_with (d ∷ ds) (x ∷ xs) = d == x && starts_with ds xs

unfoldable pub find : Str → Str → Option ℕ
unfolding starts_with
find needle [] = if starts_with needle [] then some 0 else none
find needle (x ∷ xs) =
    let later = Option.map suc (find needle xs) in
    if starts_with needle (x ∷ xs) then some 0 else later

-- `s.find(needle, pos)`
unfoldable pub find_from : Str → Str → ℕ → Option ℕ
find_from s needle pos =
    if leb pos (length s) then Option.map (λ i. pos + i) (find needle (drop pos s)) else none

-- `s.substr(pos, count)`, for a `pos` that is at most the size.
abbrev pub substr : Str → ℕ → ℕ → Str
substr s pos count = take count (drop pos s)

abbrev pub slash : ℕ
slash = b'/'

-- The Boolean result, and the output argument after the call.
pub get_path_parent : Str → Str → Bool × Str
get_path_parent path output = elim (find_last_of slash path) [
  | none ↦ (false, output)
  | some zero ↦ (true, slash ∷ [])
  | some (suc i) ↦ (true, substr path 0 (suc i))
]

pub get_last_path_segment : Str → Str
get_last_path_segment path = elim (find_last_of slash path) [
  | none ↦ []
  | some i ↦ drop (i + 1) path
]

-- The part of `split` behind its loop.
split_end : Str → List Str → List Str
split_end [] result = result
split_end (c ∷ end_token) result = result ++ (c ∷ end_token) ∷ []

-- The loop of `split` on fuel. `none` means that the fuel ran out.
split_loop : ℕ → Str → Str → ℕ → List Str → Option (List Str)
unfolding split_end
split_loop zero input delimiter token_index result = none
split_loop (suc fuel) input delimiter token_index result =
    elim (find_from input delimiter token_index) [
      | none ↦ some (split_end (drop token_index input) result)
      | some delimiter_index ↦
          split_loop fuel input delimiter (delimiter_index + length delimiter)
            (result ++ substr input token_index (delimiter_index - token_index) ∷ [])
    ]

-- One round for each byte, and one more to see the end.
pub split : Str → Str → Option (List Str)
split input delimiter = split_loop (length input + 1) input delimiter 0 []

join_loop : List Str → Str → Str
join_loop [] delimiter = []
join_loop (token ∷ []) delimiter = token
join_loop (token ∷ next ∷ rest) delimiter =
    token ++ (delimiter ++ join_loop (next ∷ rest) delimiter)

pub join : List Str → Str → Str
unfolding join_loop
join [] delimiter = []
join (front ∷ []) delimiter = front
join (token ∷ next ∷ rest) delimiter = join_loop (token ∷ next ∷ rest) delimiter

pub remove_file_extension : Str → Str
remove_file_extension input = elim (find (b'.' ∷ []) input) [
  | none ↦ input
  | some index ↦ substr input 0 index
]

is_invalid_hex : ℕ → Bool
is_invalid_hex c =
    if leb b'0' c && leb c b'9' || (leb b'a' c && leb c b'f' || leb b'A' c && leb c b'F')
    then false
    else true

filter : (ℕ → Bool) → Str → Str
filter p [] = []
filter p (x ∷ xs) = let rest = filter p xs in if p x then x ∷ rest else rest

is_empty : Str → Bool
is_empty [] = true
is_empty (x ∷ xs) = false

pub is_ascii_hex_string : Str → Bool
unfolding is_invalid_hex filter is_empty
is_ascii_hex_string input = is_empty (filter is_invalid_hex input)

-- `std::tolower` in the C locale.
tolower : ℕ → ℕ
tolower c = if leb b'A' c && leb c b'Z' then c + 32 else c

unfoldable pub lowercase : Str → Str
unfolding tolower
lowercase = map tolower
