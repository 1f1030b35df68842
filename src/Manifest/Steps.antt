-- ===== src/Manifest/Steps.antt =====
-- A client of the manifest that was not fenced (slatedb/store/manifest_store.go).
use slatedb_go.Prelude.{ℕ, ◌+◌, ◌%◌, ◌^◌, ◌≡◌, refl, some}
use slatedb_go.Prelude.Result.{ok, err}
use slatedb_go.Sst.{Ulids}
use slatedb_go.Snapshot.{Snapshot, to_core_state, take_snapshot}
use slatedb_go.Manifest.{
  Manifest, ManifestStore, ManifestError, EpochType, writer_epoch, compactor_epoch,
  FenceableManifest, epoch_of, stored_epoch, update_manifest, update_stored, refresh_stored,
  refreshed, load_stored_manifest, stored_of, db_state, update_db_state, refresh,
}
use slatedb_go.Manifest.Fencing.{check_epoch-same}

pub epoch_of-core :
    (kind : EpochType) (m : Manifest) (c : Snapshot)
    → epoch_of kind (record m { core = c }) ≡ epoch_of kind m
unfolding epoch_of
epoch_of-core writer_epoch m c = refl
epoch_of-core compactor_epoch m c = refl

module _ {S : Type 0} (u : Ulids) (st : ManifestStore S) where
  pub db_state-same :
      (f : FenceableManifest)
      → f.local_epoch ≡ epoch_of f.epoch_type f.stored.manifest
      → db_state u st f ≡ ok (take_snapshot u f.stored.manifest.core)
  unfolding db_state stored_epoch
  db_state-same f same = rw (check_epoch-same f same, db_state) refl

  pub load-latest :
      (s : S) (id : ℕ) (m : Manifest)
      → st.latest s ≡ ok (some (id, m))
      → load_stored_manifest u st s ≡ ok (some (record { id = id; manifest = m }))
  unfolding load_stored_manifest stored_of
  load-latest s id m e = rw e refl

  -- Without a newer epoch, a refresh takes over the latest manifest.
  pub refresh-latest :
      (s : S) (f : FenceableManifest) (m : Manifest) (id : ℕ)
      → st.latest s ≡ ok (some (id, m))
      → f.local_epoch ≡ epoch_of f.epoch_type m
      → refresh u st s f
        ≡ ok (record f { stored = record { id = id; manifest = m } }, ok (take_snapshot u m.core))
  unfolding refresh refresh_stored refreshed db_state stored_epoch
  refresh-latest s f m id now same =
      let g : FenceableManifest = record f { stored = record { id = id; manifest = m } } in
      let state : db_state u st g ≡ ok (take_snapshot u m.core) =
        rw (check_epoch-same g same, db_state) refl in
      rw (now, refresh) (rw state refl)

  -- What the store answers to the write of the next manifest is the answer to the update.
  pub update-refused :
      (s : S) (f : FenceableManifest) (core : Snapshot) (e : ManifestError)
      → st.write s
          ((f.stored.id + 1) % 2 ^ 64)
          (record f.stored.manifest { core = to_core_state u core })
        ≡ err e
      → f.local_epoch ≡ epoch_of f.epoch_type f.stored.manifest
      → update_db_state u st s f core ≡ err e
  unfolding update_db_state update_stored update_manifest stored_epoch
  update-refused s f core e answer same =
      rw (check_epoch-same f same, update_db_state) (rw answer refl)

  pub update-written :
      (s t : S) (f : FenceableManifest) (core : Snapshot)
      → let n : Manifest = record f.stored.manifest { core = to_core_state u core } in
        let id = (f.stored.id + 1) % 2 ^ 64 in
        st.write s id n ≡ ok t
        → f.local_epoch ≡ epoch_of f.epoch_type f.stored.manifest
        → update_db_state u st s f core
          ≡ ok (t, record f { stored = record { id = id; manifest = n } })
  unfolding update_db_state update_stored update_manifest stored_epoch
  update-written s t f core answer same =
      rw (check_epoch-same f same, update_db_state) (rw answer refl)
