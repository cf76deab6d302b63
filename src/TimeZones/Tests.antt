-- ===== src/TimeZones/Tests.antt =====
-- Runs of TimeZone.cpp at fixed inputs.
use tactility_halo.Base.{◌≡◌, refl, [], ◌∷◌, none, some, arith, take}
use tactility_halo.Text.{Str, find, lowercase}
use tactility_halo.TimeZones.{
  TimeZoneEntry, quote, newline, parse_entry, split_entry, fgets, take_line, c_string, entries_read,
  matches, read_rows, read_time_zones,
}
use tactility_halo.TimeZones.Rows.{row, IsPlain, parse_entry-row}
use tactility_halo.TimeZones.Search.{file_of, matching, read_time_zones-file_of}

abbrev rome : TimeZoneEntry
rome = record { name = b'R' ∷ b'o' ∷ b'm' ∷ b'e' ∷ []; code = b'C' ∷ b'E' ∷ b'T' ∷ [] }

abbrev male : TimeZoneEntry
male = record { name = b'M' ∷ b'a' ∷ b'l' ∷ b'e' ∷ []; code = b'-' ∷ b'5' ∷ [] }

abbrev om : Str
om = b'o' ∷ b'm' ∷ []

rome-IsPlain : IsPlain rome
rome-IsPlain = record {
  unquoted = (cc, (cc, (cc, (cc, tt))));
  name = ((cc, cc), ((cc, cc), ((cc, cc), ((cc, cc), tt))));
  code = ((cc, cc), ((cc, cc), ((cc, cc), tt)));
  fits = omega arith;
}

male-IsPlain : IsPlain male
male-IsPlain = record {
  unquoted = (cc, (cc, (cc, (cc, tt))));
  name = ((cc, cc), ((cc, cc), ((cc, cc), ((cc, cc), tt))));
  code = ((cc, cc), ((cc, cc), tt));
  fits = omega arith;
}

-- A row of one quote loses all.
parse_entry_short : parse_entry (quote ∷ newline ∷ []) ≡ some none
unfolding parse_entry split_entry find
parse_entry_short = refl

-- There is nothing behind the name: `substr` throws.
parse_entry_throws : parse_entry (quote ∷ b'a' ∷ quote ∷ b';' ∷ newline ∷ []) ≡ none
unfolding parse_entry split_entry find
parse_entry_throws = refl

read_run : read_time_zones om (file_of (rome ∷ male ∷ [])) ≡ entries_read (rome ∷ [])
unfolding read_time_zones read_rows fgets take_line c_string parse_entry split_entry find matches
    lowercase
read_run = refl

parse_entry-row_example : parse_entry (row rome) ≡ some (some (rome.name, rome.code))
parse_entry-row_example = parse_entry-row rome rome-IsPlain

read_time_zones-file_of_example :
    read_time_zones om (file_of (rome ∷ male ∷ []))
    ≡ entries_read (take 51 (matching om (rome ∷ male ∷ [])))
read_time_zones-file_of_example =
    read_time_zones-file_of om (rome ∷ male ∷ []) (rome-IsPlain, (male-IsPlain, tt))
