-- ===== src/Apps/Tests.antt =====
-- Runs of ManifestRegistry.cpp at fixed inputs.
use tactility_halo.Base.{String}
use tactility_halo.Apps.{AppType, AppManifest}

abbrev manifest : String → AppType → AppManifest
manifest id type = record { id = id; name = id; type = type }
