-- ===== src/Base/Dicts.antt =====
-- A `std::unordered_map` with string keys, as an association list. The program iterates over one
-- map only to list it, so the order of the entries is not observed.
use Prim.Native.String.{String}
use mathlib.Core.Path.{◌≡◌, refl, subst}
use mathlib.Core.Logic.{inl, inr}
use mathlib.Core.List.{List, [], ◌∷◌}
use mathlib.Core.Option.{Option, none, some}
use native.Mathlib.Omega.{arith}
use text.Mathlib.Text.{◌==◌ as str_eq}
use text.Mathlib.TextEquality.{eq_iff}
use tactility_halo.Base.Tests.{Bool-cases, if◌then◌else◌}

abbrev pub Dict {ℓ} : Type ℓ → Type ℓ
Dict V = List (String × V)

module _ {ℓ} {V : Type ℓ} where
  unfoldable pub lookup : String → Dict V → Option V
  lookup k [] = none
  lookup k ((j, v) ∷ m) = if str_eq j k then some v else lookup k m

  unfoldable pub insert : String → V → Dict V → Dict V
  insert key value [] = (key, value) ∷ []
  insert key value ((other, old) ∷ rest) =
      let updated = insert key value rest in
      if str_eq other key then (other, value) ∷ rest else (other, old) ∷ updated

  unfoldable pub erase : String → Dict V → Dict V
  erase key [] = []
  erase key ((other, value) ∷ rest) =
      let kept = erase key rest in if str_eq other key then kept else (other, value) ∷ kept

  pub lookup-insert :
      (key wanted : String) (value : V) (m : Dict V)
      → lookup wanted (insert key value m)
        ≡ (if str_eq key wanted then some value else lookup wanted m)
  unfolding lookup insert
  lookup-insert key wanted value [] = refl
  lookup-insert key wanted value ((first, old) ∷ rest) =
      let later = lookup-insert key wanted value rest in
      ground (arith, later, eq_iff first wanted, eq_iff first key, eq_iff key wanted)

  pub lookup-erase :
      (key wanted : String) (m : Dict V)
      → lookup wanted (erase key m) ≡ (if str_eq key wanted then none else lookup wanted m)
  unfolding lookup erase
  lookup-erase key wanted [] = ground arith
  lookup-erase key wanted ((first, value) ∷ rest) =
      let later = lookup-erase key wanted rest in
      ground (arith, later, eq_iff first wanted, eq_iff first key, eq_iff key wanted)

-- Every value that a key can find has the property.
abbrev pub Holds {ℓ κ} : {V : Type ℓ} → (V → Type κ) → Dict V → Type (ℓ ⊔ κ)
Holds {V} P m = (key : String) (v : V) → lookup key m ≡ some v → P v

pub insert-Holds {ℓ κ} :
    {V : Type ℓ} (P : V → Type κ) (k : String) (w : V) (m : Dict V)
    → Holds P m
    → P w
    → Holds P (insert k w m)
insert-Holds P k w m h p key v e = elim (Bool-cases (str_eq k key)) [
  | inl same ↦ let w_is_v : w ≡ v = ground (arith, lookup-insert k key w m) in subst P w_is_v p
  | inr apart ↦ h key v (ground (arith, lookup-insert k key w m))
]

pub ruleset dict_laws = (lookup-insert, lookup-erase)
