-- ===== src/Statusbar/Tests.antt =====
-- Runs of Statusbar.cpp at fixed inputs.
use tactility_halo.Base.{ℕ, ◌≡◌, refl, ◌⊎◌, true, [], ◌∷◌, none, some, arith, set, get_elem?, All}
use tactility_halo.Statusbar.{Icons, blank, claim, statusbar_icon_add, statusbar_icon_remove}
use tactility_halo.Statusbar.Icons.{IsValid, remove-add}

abbrev two : Icons
two = claim "wifi" ∷ blank ∷ []

two-IsValid : IsValid two
two-IsValid = (λ e. ground (arith, e), (λ e. refl, tt))

remove-add_example :
    ((statusbar_icon_add "sd" two ≡ (two, none)) × All (λ icon. icon.claimed ≡ true) two)
    ⊎ ((id : ℕ) × (statusbar_icon_add "sd" two ≡ (set two id (claim "sd"), some id))
        × (get_elem? two id ≡ some blank)
        × (statusbar_icon_remove id (statusbar_icon_add "sd" two).0 ≡ some two))
remove-add_example = remove-add "sd" two two-IsValid
