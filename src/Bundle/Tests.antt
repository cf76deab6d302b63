-- ===== src/Bundle/Tests.antt =====
-- Runs of Bundle.cpp at fixed inputs.
use tactility_halo.Base.{ℕ, String, ◌≡◌, Bool, true, false, [], Option, some, arith, lookup}
use tactility_halo.Bundle.{Bundle, put_bool, put_int32, put_string}
use tactility_halo.Bundle.Entries.{IsValid, View, view, view-put, put-IsValid}

abbrev empty : Bundle
empty = record { entries = [] }

empty-IsValid : IsValid empty
unfolding lookup
empty-IsValid key v e = absurd (ground (arith, e))

abbrev on : Bundle
on = put_bool empty "on" true

on-IsValid : IsValid on
on-IsValid = (put-IsValid empty "on" true 0 "" empty-IsValid).0

abbrev seen : Bool × Option Bool → Bool × Option ℕ → Bool × String → View
seen b n s = record { bool_out = b; int32_out = n; string_out = s }

view-put_example :
    (view (put_bool on "on" false) "on" true 5 "x"
      ≡ seen (true, some false) (false, some 5) (false, "x"))
    × (view (put_int32 on "on" 7) "on" true 5 "x"
        ≡ seen (false, some true) (true, some 7) (false, "x"))
    × (view (put_string on "on" "y") "on" true 5 "x"
        ≡ seen (false, some true) (false, some 5) (true, "y"))
view-put_example = view-put on "on" "on" false true 7 5 "y" "x"
