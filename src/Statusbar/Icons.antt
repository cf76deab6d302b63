-- ===== src/Statusbar/Icons.antt =====
-- An icon that is added and removed.
use tactility_halo.Base.{
  ℕ, zero, suc, ◌≡◌, ◌∙◌, refl, ap, sym, ◌⊎◌, inl, inr, String, true, false, [], ◌∷◌, none, some,
  some-injective, arith, get_elem?, set, All, Bool-cases,
}
use tactility_halo.Statusbar.{
  StatusbarIcon, Icons, blank, claim, statusbar_icon_add, statusbar_icon_remove,
}

-- An icon that is not claimed is blank.
abbrev pub IsValid : Icons → Type 0
IsValid = All (λ icon. icon.claimed ≡ false → icon ≡ blank)

add-claimed :
    (image : String) (icon : StatusbarIcon) (rest : Icons)
    → icon.claimed ≡ true
    → statusbar_icon_add image (icon ∷ rest) ≡ (
      icon ∷ (statusbar_icon_add image rest).0,
      elim (statusbar_icon_add image rest).1 [ none ↦ none | some i ↦ some (suc i) ],
    )
unfolding statusbar_icon_add
add-claimed image icon rest h = rw (h, statusbar_icon_add)

add-free :
    (image : String) (icon : StatusbarIcon) (rest : Icons)
    → icon.claimed ≡ false
    → statusbar_icon_add image (icon ∷ rest) ≡ (claim image ∷ rest, some 0)
unfolding statusbar_icon_add
add-free image icon rest h = rw (h, statusbar_icon_add)

-- The shape of the result of `statusbar_icon_add`.
add-cases :
    (image : String) (icons : Icons)
    → ((statusbar_icon_add image icons ≡ (icons, none)) × All (λ icon. icon.claimed ≡ true) icons)
      ⊎ ((id : ℕ) × (old : StatusbarIcon) × (statusbar_icon_add image icons
            ≡ (set icons id (claim image), some id))
          × (get_elem? icons id ≡ some old)
          × (old.claimed ≡ false))
add-cases image [] = inl (unfold statusbar_icon_add in refl, tt)
add-cases image (icon ∷ rest) = elim (Bool-cases icon.claimed) [
  | inr free ↦ inr (0, icon, add-free image icon rest free, refl, free)
  | inl claimed ↦ elim (add-cases image rest) [
    | inl (full, all_claimed) ↦ inl (
      add-claimed image icon rest claimed
          ∙ ap (λ x. (icon ∷ x.0, elim x.1 [ none ↦ none | some i ↦ some (suc i) ])) full,
      (claimed, all_claimed),
    )
    | inr (id, old, added, at, free) ↦ inr (
      suc id,
      old,
      add-claimed image icon rest claimed
          ∙ ap (λ x. (icon ∷ x.0, elim x.1 [ none ↦ none | some i ↦ some (suc i) ])) added,
      at,
      free,
    )
  ]
]

get_elem?-set :
    (icons : Icons) (id : ℕ) (old new : StatusbarIcon)
    → get_elem? icons id ≡ some old
    → get_elem? (set icons id new) id ≡ some new
get_elem?-set [] id old new at = absurd (ground arith)
get_elem?-set (icon ∷ rest) zero old new at = refl
get_elem?-set (icon ∷ rest) (suc id) old new at = get_elem?-set rest id old new at

set_back :
    (icons : Icons) (id : ℕ) (old new : StatusbarIcon)
    → get_elem? icons id ≡ some old
    → set (set icons id new) id old ≡ icons
set_back [] id old new at = refl
set_back (icon ∷ rest) zero old new at = ap (λ x. x ∷ rest) (some-injective old icon (sym at))
set_back (icon ∷ rest) (suc id) old new at = ap (◌∷◌ icon) (set_back rest id old new at)

IsValid-at :
    (icons : Icons) (id : ℕ) (old : StatusbarIcon)
    → IsValid icons
    → get_elem? icons id ≡ some old
    → old.claimed ≡ false
    → old ≡ blank
IsValid-at [] id old v at free = absurd (ground arith)
IsValid-at (icon ∷ rest) zero old v at free =
    let same = some-injective icon old at in sym same ∙ v.0 (ap (λ x. x.claimed) same ∙ free)
IsValid-at (icon ∷ rest) (suc id) old v at free = IsValid-at rest id old v.1 at free

remove-set :
    (icons : Icons) (id : ℕ) (old new : StatusbarIcon)
    → get_elem? icons id ≡ some old
    → old ≡ blank
    → statusbar_icon_remove id (set icons id new) ≡ some icons
unfolding statusbar_icon_remove
remove-set icons id old new at is =
    rw (get_elem?-set icons id old new at, statusbar_icon_remove)
      (ap (λ x. some (set (set icons id new) id x)) (sym is)
        ∙ ap some (set_back icons id old new at))

-- Where icons that are not claimed are blank, adding an icon either finds all icons claimed and
-- changes nothing, or it changes one icon, which was not claimed, to the claimed new one and
-- returns its id; and removing that id gives back the icons from before.
pub remove-add :
    (image : String) (icons : Icons)
    → IsValid icons
    → ((statusbar_icon_add image icons ≡ (icons, none)) × All (λ icon. icon.claimed ≡ true) icons)
      ⊎ ((id : ℕ) × (statusbar_icon_add image icons ≡ (set icons id (claim image), some id))
          × (get_elem? icons id ≡ some blank)
          × (statusbar_icon_remove id (statusbar_icon_add image icons).0 ≡ some icons))
remove-add image icons v = elim (add-cases image icons) [
  | inl full ↦ inl full
  | inr (id, old, added, at, free) ↦
      let is = IsValid-at icons id old v at free in
      inr (
        id,
        added,
        at ∙ ap some is,
        ap (λ x. statusbar_icon_remove id x.0) added ∙ remove-set icons id old (claim image) at is,
      )
]
