-- ===== src/Statusbar.antt =====
-- Tactility/Source/lvgl/Statusbar.cpp: the icons of the status bar. The mutex makes each operation
-- atomic; the message that each one publishes carries nothing and is left out, and so is what the
-- widget does with it.
pub mod Icons
pub mod Tests
use tactility_halo.Base.{
  ℕ, zero, suc, ◌+◌, String, Bool, true, false, not, List, [], ◌∷◌, Option, none, some, ltb, ◌==◌,
  if◌then◌else◌, length, get_elem?, set, replicate, str_eq,
}

pub record StatusbarIcon : Type 0 where
  pub image : String
  pub visible : Bool
  pub claimed : Bool

abbrev pub statusbar_icon_limit : ℕ
statusbar_icon_limit = 8

abbrev pub blank : StatusbarIcon
blank = record { image = ""; visible = false; claimed = false }

abbrev pub Icons : Type 0
Icons = List StatusbarIcon

abbrev pub initial_icons : Icons
initial_icons = replicate statusbar_icon_limit blank

abbrev pub claim : String → StatusbarIcon
claim image = record { image = image; visible = not (str_eq image ""); claimed = true }

-- The loop finds the first icon that is not claimed; `none` is the result -1.
unfoldable pub statusbar_icon_add : String → Icons → Icons × Option ℕ
statusbar_icon_add image [] = ([], none)
statusbar_icon_add image (icon ∷ rest) =
    let (rest', found) = statusbar_icon_add image rest in
    if icon.claimed
    then (icon ∷ rest', elim found [ none ↦ none | some i ↦ some (suc i) ])
    else (claim image ∷ rest, some 0)

-- In the next three, `none` is a failed check. The id is an `int8_t` that is not negative.
unfoldable pub statusbar_icon_remove : ℕ → Icons → Option Icons
statusbar_icon_remove id icons = elim (get_elem? icons id) [
  | none ↦ none
  | some icon ↦ some (set icons id blank)
]

-- `locks` is whether the mutex is free in time.
unfoldable pub statusbar_icon_set_image : Bool → ℕ → String → Icons → Option Icons
statusbar_icon_set_image locks id image icons = elim (get_elem? icons id) [
  | none ↦ none
  | some icon ↦
      if not locks
      then some icons
      else if icon.claimed
      then some (set icons id (record icon { image = image }))
      else none
]

unfoldable pub statusbar_icon_set_visibility : Bool → ℕ → Bool → Icons → Option Icons
statusbar_icon_set_visibility locks id visible icons = elim (get_elem? icons id) [
  | none ↦ none
  | some icon ↦
      if not locks
      then some icons
      else if icon.claimed
      then some (set icons id (record icon { visible = visible }))
      else none
]
