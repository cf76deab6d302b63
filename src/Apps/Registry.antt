-- ===== src/Apps/Registry.antt =====
-- The registry of the app manifests.
use tactility_halo.Base.{
  ◌≡◌, String, List, [], ◌∷◌, none, some, arith, lookup, lookup-insert, str_eq, eq_iff, eq_refl,
  Option-cases, Bool-cases, inl, inr,
}
use tactility_halo.Apps.{AppManifest, AppManifestMap, add_app, find_app_by_id}

-- Registrations, one after the other.
pub add_apps : AppManifestMap → List AppManifest → AppManifestMap
add_apps m [] = m
add_apps m (manifest ∷ rest) = add_apps (add_app m manifest) rest

add_app-keeps :
    (m : AppManifestMap) (manifest v : AppManifest) (id : String)
    → find_app_by_id m id ≡ some v
    → find_app_by_id (add_app m manifest) id ≡ some v
unfolding add_app find_app_by_id
add_app-keeps m manifest v id e = elim (Option-cases (lookup manifest.id m)) [
  | inl free ↦ elim (Bool-cases (str_eq manifest.id id)) [
    | inl same ↦ absurd (ground (arith, eq_iff manifest.id id))
    | inr apart ↦ ground (arith, lookup-insert manifest.id id manifest m)
  ]
  | inr (w, taken) ↦ ground arith
]

add_apps-keeps :
    (rest : List AppManifest) (m : AppManifestMap) (v : AppManifest) (id : String)
    → find_app_by_id m id ≡ some v
    → find_app_by_id (add_apps m rest) id ≡ some v
unfolding add_apps
add_apps-keeps [] m v id e = e
add_apps-keeps (manifest ∷ rest) m v id e =
    add_apps-keeps rest (add_app m manifest) v id (add_app-keeps m manifest v id e)

add_app-finds :
    (m : AppManifestMap) (manifest : AppManifest)
    → find_app_by_id m manifest.id ≡ none
    → find_app_by_id (add_app m manifest) manifest.id ≡ some manifest
unfolding add_app find_app_by_id
add_app-finds m manifest free =
    ground (arith, lookup-insert manifest.id manifest.id manifest m, eq_refl manifest.id)

-- The first registration of an id wins: a manifest that is added under a free id is found by its
-- id from then on, whatever is added later.
pub find-add_apps :
    (m : AppManifestMap) (manifest : AppManifest) (later : List AppManifest)
    → find_app_by_id m manifest.id ≡ none
    → find_app_by_id (add_apps (add_app m manifest) later) manifest.id ≡ some manifest
find-add_apps m manifest later free =
    add_apps-keeps later (add_app m manifest) manifest manifest.id (add_app-finds m manifest free)
