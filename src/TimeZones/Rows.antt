-- ===== src/TimeZones/Rows.antt =====
-- The rows of the file of the time zones.
use tactility_halo.Base.{
  ℕ, zero, suc, ◌+◌, ◌-◌, ◌%◌, ◌^◌, ◌≤◌, ◌<◌, ◌==◌, ◌≡◌, ◌≢◌, ◌∙◌, refl, ap, sym, subst, List, [],
  ◌∷◌, ◌++◌, some, arith, length, take, drop, All, All-append, length-append, take-append,
  append_assoc, false,
}
use tactility_halo.Text.{Str, find}
use tactility_halo.TimeZones.{
  TimeZoneEntry, quote, newline, parse_entry, split_entry, take_line, fgets, c_string,
}

-- What stands between the outer quotes of a row.
abbrev pub body : TimeZoneEntry → Str
body zone = zone.name ++ quote ∷ b',' ∷ quote ∷ zone.code

abbrev pub row : TimeZoneEntry → Str
row zone = quote ∷ (body zone ++ quote ∷ newline ∷ [])

abbrev pub IsText : Str → Type 0
IsText = All (λ c. (c ≢ newline) × (c ≢ 0))

-- A row that fits into the buffer of `readTimeZones`.
pub record IsPlain (zone : TimeZoneEntry) : Type 0 where
  pub unquoted : All (λ c. c ≢ quote) zone.name
  pub name : IsText zone.name
  pub code : IsText zone.code
  pub fits : length (row zone) < 96

find-quote :
    (name rest : Str)
    → All (λ c. c ≢ quote) name
    → find (quote ∷ []) (name ++ quote ∷ rest) ≡ some (length name)
unfolding find
find-quote [] rest h = refl
find-quote (c ∷ name) rest h = ground (arith, find-quote name rest h.1)

drop-three : (name code : Str) → drop (length name + 3) (name ++ quote ∷ b',' ∷ quote ∷ code) ≡ code
drop-three [] code = refl
drop-three (c ∷ name) code =
    let step : suc (length name) + 3 ≡ suc (length name + 3) = omega arith in
    ap (λ n. drop n (c ∷ (name ++ quote ∷ b',' ∷ quote ∷ code))) step ∙ drop-three name code

strip :
    (zone : TimeZoneEntry)
    → IsPlain zone
    → take ((length (row zone) + 2 ^ 64 - 3) % 2 ^ 64) (drop 1 (row zone)) ≡ body zone
strip zone h =
    take-append (body zone) (quote ∷ newline ∷ []) _
      (omega (arith, h.fits, length-append (body zone) (quote ∷ newline ∷ [])))

split_entry_lem :
    (s : Str) (i : ℕ)
    → find (quote ∷ []) s ≡ some i
    → i + 3 ≤ length s
    → split_entry s ≡ some (some (take i s, drop (i + 3) s))
unfolding split_entry
split_entry_lem s i e h = ground (arith, e)

split_entry-body :
    (zone : TimeZoneEntry)
    → IsPlain zone
    → split_entry (body zone) ≡ some (some (zone.name, zone.code))
split_entry-body zone h =
    let tail = quote ∷ b',' ∷ quote ∷ zone.code in
    let head = take-append zone.name tail (length zone.name) refl in
    split_entry_lem (body zone) (length zone.name)
      (find-quote zone.name (b',' ∷ quote ∷ zone.code) h.unquoted)
      (omega (arith, length-append zone.name tail))
    ∙ (λ i. some (some (head i, drop-three zone.name zone.code i)))

-- What `parseEntry` reads from a row are the name and the code that were put into it. The name has
-- no quote, both have no line end and no 0, and the row is shorter than 96 bytes.
pub parse_entry-row :
    (zone : TimeZoneEntry)
    → IsPlain zone
    → parse_entry (row zone) ≡ some (some (zone.name, zone.code))
unfolding parse_entry
parse_entry-row zone h =
    let nonempty : (length (row zone) == 0) ≡ false = ground arith in
    rw (nonempty, strip zone h) (split_entry-body zone h)

take_line-row :
    (room : ℕ) (line rest : List ℕ)
    → length line < room
    → All (λ c. c ≢ newline) line
    → take_line room (line ++ newline ∷ rest) ≡ (line ++ newline ∷ [], rest)
unfolding take_line
take_line-row zero line rest h f = absurd (omega arith)
take_line-row (suc room) [] rest h f = refl
take_line-row (suc room) (c ∷ line) rest h f =
    ground (arith, f.0, take_line-row room line rest (omega arith) f.1)

c_string-id : (s : Str) → All (λ c. c ≢ 0) s → c_string s ≡ s
unfolding c_string
c_string-id [] h = refl
c_string-id (c ∷ s) h = ground (arith, h.0, c_string-id s h.1)

-- A row up to the end of its line.
abbrev line_of : TimeZoneEntry → Str
line_of zone = quote ∷ (body zone ++ quote ∷ [])

row-line : (zone : TimeZoneEntry) → row zone ≡ line_of zone ++ newline ∷ []
row-line zone = ap (◌∷◌ quote) (sym (append_assoc (body zone) (quote ∷ []) (newline ∷ [])))

line_of-IsText : (zone : TimeZoneEntry) → IsPlain zone → IsText (line_of zone)
line_of-IsText zone h =
    let inner =
      All-append (λ c. (c ≢ newline) × (c ≢ 0)) zone.name (quote ∷ b',' ∷ quote ∷ zone.code) h.name
        ((cc, cc), ((cc, cc), ((cc, cc), h.code))) in
    (
      (cc, cc),
      All-append (λ c. (c ≢ newline) × (c ≢ 0)) (body zone) (quote ∷ []) inner ((cc, cc), tt),
    )

IsText-lines : (s : Str) → IsText s → All (λ c. c ≢ newline) s
IsText-lines [] h = tt
IsText-lines (c ∷ s) h = (h.0.0, IsText-lines s h.1)

IsText-zero : (s : Str) → IsText s → All (λ c. c ≢ 0) s
IsText-zero [] h = tt
IsText-zero (c ∷ s) h = (h.0.1, IsText-zero s h.1)

pub fgets-row :
    (zone : TimeZoneEntry) (rest : List ℕ)
    → IsPlain zone
    → fgets 96 (row zone ++ rest) ≡ some (row zone, rest)
unfolding fgets
fgets-row zone rest h =
    let line = line_of zone in
    let whole : row zone ++ rest ≡ line ++ newline ∷ rest =
      ap (λ s. s ++ rest) (row-line zone) ∙ append_assoc line (newline ∷ []) rest in
    let short : length line < 95 =
      omega (arith, h.fits, ap length (row-line zone), length-append line (newline ∷ [])) in
    ap (fgets 96) whole
    ∙ ap some (take_line-row 95 line rest short (IsText-lines line (line_of-IsText zone h)))
    ∙ ap (λ s. some (s, rest)) (sym (row-line zone))

pub c_string-row : (zone : TimeZoneEntry) → IsPlain zone → c_string (row zone) ≡ row zone
c_string-row zone h = c_string-id (row zone) (
    subst (All (λ c. c ≢ 0)) (sym (row-line zone)) (
      All-append (λ c. c ≢ 0) (line_of zone) (newline ∷ [])
        (IsText-zero (line_of zone) (line_of-IsText zone h)) (cc, tt)))
