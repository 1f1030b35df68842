-- ===== src/Manifest.antt =====
-- slatedb/store/manifest_store.go: the stored manifest and the manifest with a fence, over the
-- interface `ManifestStore` to the files of the manifest, of which no law is assumed; and the record
-- of slatedb/manifest.
pub mod Fencing
pub mod Steps
pub mod Latest
use slatedb_go.Prelude.{
  ℕ, ◌+◌, ◌%◌, ◌^◌, ◌≡◌, Bool, true, false, Option, none, some, ltb, if◌then◌else◌,
}
use slatedb_go.Prelude.Result.{Result, ok, err, panic, ◌>>=◌}
use slatedb_go.Sst.{Ulids}
use slatedb_go.Snapshot.{Snapshot, to_core_state, take_snapshot}

pub record Manifest : Type 0 where
  pub core : Snapshot
  pub writer_epoch : ℕ
  pub compactor_epoch : ℕ

-- ErrAlreadyExists, ErrFenced, the absent manifest of `Refresh`, and what the object store returns.
pub data ManifestError : Type 0 where
  already_exists fenced manifest_absent : ManifestError
  store_error : ℕ → ManifestError

-- writeManifest and readLatestManifest on the files, whose state is of type `S`.
pub record ManifestStore (S : Type 0) : Type 0 where
  pub write : S → ℕ → Manifest → Result ManifestError S
  pub latest : S → Result ManifestError (Option (ℕ × Manifest))

pub data EpochType : Type 0 where
  writer_epoch compactor_epoch : EpochType

pub record StoredManifest : Type 0 where
  pub id : ℕ
  pub manifest : Manifest

pub record FenceableManifest : Type 0 where
  pub stored : StoredManifest
  pub local_epoch : ℕ
  pub epoch_type : EpochType

-- `epoch.Add(1)` on the epoch of a kind.
unfoldable pub add_epoch : EpochType → Manifest → Manifest
add_epoch writer_epoch m = record m { writer_epoch = (m.writer_epoch + 1) % 2 ^ 64 }
add_epoch compactor_epoch m = record m { compactor_epoch = (m.compactor_epoch + 1) % 2 ^ 64 }

unfoldable pub epoch_of : EpochType → Manifest → ℕ
epoch_of writer_epoch m = m.writer_epoch
epoch_of compactor_epoch m = m.compactor_epoch

pub stored_epoch : FenceableManifest → ℕ
stored_epoch f = epoch_of f.epoch_type f.stored.manifest

-- Whether the check passes, fails with ErrFenced, or panics.
pub check_epoch : FenceableManifest → Result ManifestError Bool
check_epoch f =
    if ltb f.local_epoch (stored_epoch f)
    then err fenced
    else if ltb (stored_epoch f) f.local_epoch
    then panic
    else ok true

module _ {S : Type 0} (u : Ulids) (st : ManifestStore S) where
  pub new_stored_manifest : S → Snapshot → Result ManifestError (S × StoredManifest)
  new_stored_manifest s core = do
    let m : Manifest = record { core = core; writer_epoch = 0; compactor_epoch = 0 }
    t ← st.write s 1 m
    ok (t, record { id = 1; manifest = m })

  stored_of : Option (ℕ × Manifest) → Option StoredManifest
  stored_of none = none
  stored_of (some (id, m)) = some (record { id = id; manifest = m })

  pub load_stored_manifest : S → Result ManifestError (Option StoredManifest)
  load_stored_manifest s = do o ← st.latest s; ok (stored_of o)

  pub update_manifest : S → StoredManifest → Manifest → Result ManifestError (S × StoredManifest)
  update_manifest s m new = do
    let id = (m.id + 1) % 2 ^ 64
    t ← st.write s id new
    ok (t, record { id = id; manifest = new })

  -- updateDBState; the snapshot is cloned, and the epochs stay.
  pub update_stored : S → StoredManifest → Snapshot → Result ManifestError (S × StoredManifest)
  update_stored s m core = update_manifest s m (record m.manifest { core = to_core_state u core })

  refreshed : Option (ℕ × Manifest) → Result ManifestError StoredManifest
  refreshed none = err manifest_absent
  refreshed (some (id, m)) = ok (record { id = id; manifest = m })

  -- StoredManifest.Refresh
  pub refresh_stored : S → Result ManifestError StoredManifest
  refresh_stored s = do o ← st.latest s; refreshed o

  -- NewWriterFenceableManifest and NewCompactorFenceableManifest
  pub new_fenceable : EpochType → S → StoredManifest → Result ManifestError (S × FenceableManifest)
  new_fenceable kind s m = do
    let new = add_epoch kind m.manifest
    (t, n) ← update_manifest s m new
    ok (t, record { stored = n; local_epoch = epoch_of kind new; epoch_type = kind })

  -- DbState
  pub db_state : FenceableManifest → Result ManifestError Snapshot
  db_state f = do passed ← check_epoch f; ok (take_snapshot u f.stored.manifest.core)

  pub update_db_state :
      S → FenceableManifest → Snapshot → Result ManifestError (S × FenceableManifest)
  update_db_state s f core = do
    passed ← check_epoch f
    (t, m) ← update_stored s f.stored core
    ok (t, record f { stored = m })

  -- Refresh: the new manifest, with the state or the error of the check.
  pub refresh :
      S
      → FenceableManifest
      → Result ManifestError (FenceableManifest × Result ManifestError Snapshot)
  refresh s f = do m ← refresh_stored s; let g = record f { stored = m }; ok (g, db_state g)
