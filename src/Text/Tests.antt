-- ===== src/Text/Tests.antt =====
-- Runs of StringUtils.cpp at fixed inputs.
use tactility_halo.Base.{◌≡◌, refl, ◌⊎◌, List, [], ◌∷◌, ◌++◌, none, some, arith, All}
use tactility_halo.Text.{Str, find, find_from, split_loop, split, join}
use tactility_halo.Text.Split.{split-join}

abbrev comma : Str
comma = b',' ∷ []

abbrev two_fields : Str
two_fields = b'a' ∷ b',' ∷ b'b' ∷ b',' ∷ []

abbrev data_app : Str
data_app = b'/' ∷ b'd' ∷ b'/' ∷ b'a' ∷ []

split_run : split two_fields comma ≡ some ((b'a' ∷ []) ∷ (b'b' ∷ []) ∷ [])
unfolding split split_loop find_from find
split_run = refl

split-join_example :
    (ts : List Str) × (split two_fields comma ≡ some ts)
    × All (λ t. find comma t ≡ none) ts
    × ((two_fields ≡ join ts comma) ⊎ (two_fields ≡ join ts comma ++ comma))
split-join_example = split-join two_fields comma (λ e. ground (arith, e))
