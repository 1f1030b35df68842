-- ===== src/Manifest/Latest.antt =====
-- A store of the manifest that keeps the latest file, for the concrete cases.
use slatedb_go.Prelude.{ℕ, Option, none, some, ◌==◌, if◌then◌else◌}
use slatedb_go.Prelude.Result.{Result, ok, err}
use slatedb_go.Manifest.{Manifest, ManifestError, already_exists, ManifestStore}

abbrev pub Latest : Type 0
Latest = Option (ℕ × Manifest)

abbrev pub write : Latest → ℕ → Manifest → Result ManifestError Latest
write none id n = ok (some (id, n))
write (some (j, m)) id n = if id == j then err already_exists else ok (some (id, n))

abbrev pub keeping : ManifestStore Latest
keeping = record { write = write; latest = λ s. ok s }
