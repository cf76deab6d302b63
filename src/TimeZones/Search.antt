-- ===== src/TimeZones/Search.antt =====
-- The search of the file of the time zones.
use tactility_halo.Base.{
  ℕ, zero, suc, ◌+◌, ◌-◌, ◌≤◌, ◌<◌, ◌≡◌, ◌≢◌, ◌∙◌, refl, ap, sym, inl, inr, true, false, List, [],
  ◌∷◌, ◌++◌, none, some, some-injective, arith, length, take, ltb, All, length-append, append_assoc,
  append-nil, take-nil, if◌then◌else◌, Bool-cases, Option-cases,
}
use tactility_halo.Text.{Str}
use tactility_halo.TimeZones.{
  TimeZoneEntry, parse_entry, take_line, fgets, c_string, entries_read, out_of_fuel, matches,
  read_rows, read_time_zones,
}
use tactility_halo.TimeZones.Rows.{row, IsPlain, parse_entry-row, fgets-row, c_string-row}

abbrev pub file_of : List TimeZoneEntry → List ℕ
file_of [] = []
file_of (zone ∷ zones) = row zone ++ file_of zones

-- The time zones whose names contain the text of the filter, in any case.
abbrev pub matching : Str → List TimeZoneEntry → List TimeZoneEntry
matching filter [] = []
matching filter (zone ∷ zones) =
    if matches filter zone.name then zone ∷ matching filter zones else matching filter zones

round_row :
    (fuel : ℕ) (filter : Str) (count : ℕ) (found : List TimeZoneEntry) (zone : TimeZoneEntry)
    (rest : List ℕ)
    → IsPlain zone
    → read_rows (suc fuel) filter count found (row zone ++ rest) ≡ elim (matches filter zone.name) [
      | false ↦ read_rows fuel filter count found rest
      | true ↦ elim (ltb 50 (count + 1)) [
        | true ↦ entries_read (found ++ zone ∷ [])
        | false ↦ read_rows fuel filter (count + 1) (found ++ zone ∷ []) rest
      ]
    ]
unfolding read_rows
round_row fuel filter count found zone rest h =
    rw (fgets-row zone rest h, c_string-row zone h, parse_entry-row zone h, read_rows)

round_end :
    (fuel : ℕ) (filter : Str) (count : ℕ) (found : List TimeZoneEntry)
    → read_rows (suc fuel) filter count found [] ≡ entries_read found
unfolding read_rows fgets
round_end fuel filter count found = refl

length-file_of : (zones : List TimeZoneEntry) → length zones ≤ length (file_of zones)
length-file_of [] = omega arith
length-file_of (zone ∷ zones) =
    omega (arith, length-append (row zone) (file_of zones), length-file_of zones)

read_rows-file_of :
    (zones : List TimeZoneEntry) (fuel : ℕ) (filter : Str) (count : ℕ) (found : List TimeZoneEntry)
    → All IsPlain zones
    → length zones < fuel
    → count ≤ 50
    → read_rows fuel filter count found (file_of zones)
      ≡ entries_read (found ++ take (51 - count) (matching filter zones))
read_rows-file_of zones zero filter count found h f c = absurd (omega arith)
read_rows-file_of [] (suc fuel) filter count found h f c =
    round_end fuel filter count found
    ∙ ap entries_read (sym (append-nil found))
    ∙ ap (λ l. entries_read (found ++ l)) (sym (take-nil (51 - count)))
read_rows-file_of (zone ∷ zones) (suc fuel) filter count found h f c =
    elim (Bool-cases (matches filter zone.name)) [
      | inr other ↦
          round_row fuel filter count found zone (file_of zones) h.0
          ∙ rw (other) (read_rows-file_of zones fuel filter count found h.1 (omega arith) c)
      | inl match ↦ elim (Bool-cases (ltb 50 (count + 1))) [
        | inl full ↦
            round_row fuel filter count found zone (file_of zones) h.0
            ∙ rw (match, full)
                (let one : suc 0 ≡ 51 - count = ground arith in
                  ap (λ n. entries_read (found ++ take n (zone ∷ matching filter zones))) one)
        | inr more ↦
            round_row fuel filter count found zone (file_of zones) h.0
            ∙ rw (match, more)
                (let step : suc (51 - (count + 1)) ≡ 51 - count = ground arith in
                  read_rows-file_of zones fuel filter (count + 1) (found ++ zone ∷ []) h.1
                    (omega arith) (ground arith)
                  ∙ ap entries_read (
                      append_assoc found (zone ∷ [])
                        (take (51 - (count + 1)) (matching filter zones)))
                  ∙ ap (λ n. entries_read (found ++ take n (zone ∷ matching filter zones))) step)
      ]
    ]

-- Of a file of rows, each shorter than 96 bytes, the search reads the time zones that match the
-- filter, in the order of the file, and the first 51 of them if there are more.
pub read_time_zones-file_of :
    (filter : Str) (zones : List TimeZoneEntry)
    → All IsPlain zones
    → read_time_zones filter (file_of zones) ≡ entries_read (take 51 (matching filter zones))
unfolding read_time_zones
read_time_zones-file_of filter zones h =
    read_rows-file_of zones (suc (length (file_of zones))) filter 0 [] h
      (omega (arith, length-file_of zones)) (omega arith)

take_line-consumes : (room : ℕ) (bytes : List ℕ) → length (take_line room bytes).1 ≤ length bytes
unfolding take_line
take_line-consumes zero bytes = omega arith
take_line-consumes (suc room) [] = omega arith
take_line-consumes (suc room) (c ∷ bytes) = ground (arith, take_line-consumes room bytes)

take_line-shrinks :
    (room c : ℕ) (bytes : List ℕ) → length (take_line (suc room) (c ∷ bytes)).1 ≤ length bytes
unfolding take_line
take_line-shrinks room c bytes = ground (arith, take_line-consumes room bytes)

fgets-consumes :
    (bytes line rest : List ℕ) → fgets 96 bytes ≡ some (line, rest) → length rest < length bytes
unfolding fgets
fgets-consumes [] line rest e = absurd (ground arith)
fgets-consumes (c ∷ bytes) line rest e =
    let same : take_line 95 (c ∷ bytes) ≡ (line, rest) = some-injective _ _ e in
    let left : (take_line 95 (c ∷ bytes)).1 ≡ rest = ap (λ r. r.1) same in
    omega (arith, ap length left, take_line-shrinks 94 c bytes)

read_rows_ends :
    (fuel : ℕ) (filter : Str) (count : ℕ) (found : List TimeZoneEntry) (file : List ℕ)
    → length file < fuel
    → read_rows fuel filter count found file ≢ out_of_fuel
unfolding read_rows
read_rows_ends zero filter count found file h = absurd (omega arith)
read_rows_ends (suc fuel) filter count found file h = elim (Option-cases (fgets 96 file)) [
  | inl at_end ↦ ground (arith, at_end)
  | inr ((line, rest), read) ↦
      let shorter = fgets-consumes file line rest read in
      let on =
        λ (n : ℕ) (l : List TimeZoneEntry). read_rows_ends fuel filter n l rest (omega arith) in
      elim (Option-cases (parse_entry (c_string line))) [
        | inl throws ↦ ground (arith, read, throws)
        | inr (none, p) ↦ ground (arith, read, p, on count found)
        | inr (some (name, code), p) ↦ ground (
          arith,
          read,
          p,
          on count found,
          on (count + 1) (found ++ record { name = name; code = code } ∷ []),
        )
      ]
]

-- For every file and every filter the search ends.
pub read_time_zones_ends :
    (filter : Str) (file : List ℕ) → read_time_zones filter file ≢ out_of_fuel
unfolding read_time_zones
read_time_zones_ends filter file = read_rows_ends (suc (length file)) filter 0 [] file (omega arith)
