-- ===== src/TimeZones.antt =====
-- Tactility/Source/app/timezone/TimeZone.cpp: the file of the time zones and how it is searched. A
-- file is the list of its bytes. The timer and the list on the screen are not modelled.
pub mod Rows
pub mod Search
pub mod Tests
use tactility_halo.Base.{
  ℕ, zero, suc, ◌+◌, ◌-◌, ◌%◌, ◌^◌, Bool, true, false, ◌||◌, List, [], ◌∷◌, ◌++◌, Option, none,
  some, ltb, ◌==◌, if◌then◌else◌, length, take, drop,
}
use tactility_halo.Text.{Str, find, lowercase}

pub record TimeZoneEntry : Type 0 where
  pub name : Str
  pub code : Str

abbrev pub quote : ℕ
quote = b'"'

abbrev pub newline : ℕ
newline = 10

-- `parseEntry` behind its first line. The outer `none` is an exception of `substr`, the inner one
-- is the result `false`.
unfoldable pub split_entry : Str → Option (Option (Str × Str))
split_entry partial_strip = elim (find (quote ∷ []) partial_strip) [
  | none ↦ some none
  | some first_end_quote ↦
      if ltb (length partial_strip) (first_end_quote + 3)
      then none
      else some
          (some (take first_end_quote partial_strip, drop (first_end_quote + 3) partial_strip))
]

-- The subtraction is one of `size_t`.
unfoldable pub parse_entry : Str → Option (Option (Str × Str))
parse_entry input =
    if length input == 0
    then none
    else split_entry (take ((length input + 2 ^ 64 - 3) % 2 ^ 64) (drop 1 input))

-- `fgets` with so many bytes of room in front of the closing 0: a line and the rest of the file.
unfoldable pub take_line : ℕ → List ℕ → List ℕ × List ℕ
take_line zero bytes = ([], bytes)
take_line (suc room) [] = ([], [])
take_line (suc room) (c ∷ rest) =
    let (line, left) = take_line room rest in
    if c == newline then (c ∷ [], rest) else (c ∷ line, left)

unfoldable pub fgets : ℕ → List ℕ → Option (List ℕ × List ℕ)
fgets size [] = none
fgets size (c ∷ bytes) = some (take_line (size - 1) (c ∷ bytes))

-- A buffer as a `std::string`.
unfoldable pub c_string : List ℕ → Str
c_string [] = []
c_string (c ∷ rest) = let tail = c_string rest in if c == 0 then [] else c ∷ tail

-- `thrown` is an exception that nothing catches; `out_of_fuel` is a loop that goes on.
pub data Reading : Type 0 where
  entries_read : List TimeZoneEntry → Reading
  thrown out_of_fuel : Reading

abbrev pub is_found : Option ℕ → Bool
is_found none = false
is_found (some i) = true

unfoldable pub matches : Str → Str → Bool
matches filter name = is_found (find filter (lowercase name))

-- The loop of `readTimeZones` on fuel.
unfoldable pub read_rows : ℕ → Str → ℕ → List TimeZoneEntry → List ℕ → Reading
read_rows zero filter count new_entries file = out_of_fuel
read_rows (suc fuel) filter count new_entries file = elim (fgets 96 file) [
  | none ↦ entries_read new_entries
  | some (line, rest) ↦ elim (parse_entry (c_string line)) [
    | none ↦ thrown
    | some none ↦ read_rows fuel filter count new_entries rest
    | some (some (name, code)) ↦ elim (matches filter name) [
      | false ↦ read_rows fuel filter count new_entries rest
      | true ↦ elim (ltb 50 (count + 1)) [
        | true ↦ entries_read (new_entries ++ record { name = name; code = code } ∷ [])
        | false ↦
            read_rows fuel filter (count + 1)
              (new_entries ++ record { name = name; code = code } ∷ []) rest
      ]
    ]
  ]
]

-- Each round takes a byte at least.
unfoldable pub read_time_zones : Str → List ℕ → Reading
read_time_zones filter file = read_rows (suc (length file)) filter 0 [] file
