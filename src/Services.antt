-- ===== src/Services.antt =====
-- Tactility/Source/service/ServiceRegistry.cpp. A manifest is a value with an id, an instance is
-- its manifest and a number that tells it from the others. The effects are the calls of the
-- services. The mutexes make each access to a map atomic.
pub mod Running
pub mod Tests
use tactility_halo.Base.{
  ℕ, ◌+◌, String, Bool, true, false, List, [], ◌∷◌, ◌++◌, Option, none, some, Dict, lookup, insert,
  erase,
}

pub record ServiceManifest : Type 0 where
  pub id : String

pub record ServiceInstance : Type 0 where
  pub manifest : ServiceManifest
  pub number : ℕ

pub data Call : Type 0 where
  on_start on_stop : ServiceInstance → Call

pub record Services : Type 0 where
  pub manifests : Dict ServiceManifest
  pub instances : Dict ServiceInstance
  -- how many instances were made
  pub made : ℕ

unfoldable pub find_manifest_id : Services → String → Option ServiceManifest
find_manifest_id s id = lookup id s.manifests

unfoldable pub find_service_instance_by_id : Services → String → Option ServiceInstance
find_service_instance_by_id s id = lookup id s.instances

-- The state, the Boolean result, and the calls.
unfoldable pub start_service : Services → String → Services × Bool × List Call
start_service s id = elim (find_manifest_id s id) [
  | none ↦ (s, false, [])
  | some manifest ↦
      let service_instance : ServiceInstance = record { manifest = manifest; number = s.made } in
      (
        record s { instances = insert manifest.id service_instance s.instances; made = s.made + 1 },
        true,
        on_start service_instance ∷ [],
      )
]

unfoldable pub stop_service : Services → String → Services × Bool × List Call
stop_service s id = elim (find_service_instance_by_id s id) [
  | none ↦ (s, false, [])
  | some service_instance ↦
      (record s { instances = erase id s.instances }, true, on_stop service_instance ∷ [])
]

unfoldable pub register_manifest : Services → ServiceManifest → Services
register_manifest s manifest = elim (lookup manifest.id s.manifests) [
  | none ↦ record s { manifests = insert manifest.id manifest s.manifests }
  | some _ ↦ s
]

unfoldable pub add_service : Services → ServiceManifest → Bool → Services × List Call
add_service s manifest false = (register_manifest s manifest, [])
add_service s manifest true =
    let (s', result, calls) = start_service (register_manifest s manifest) manifest.id in
    (s', calls)
