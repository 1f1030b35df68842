-- ===== src/Manifest/Fencing.antt =====
-- How a client of the manifest takes it over and is fenced (slatedb/store/manifest_store.go).
use slatedb_go.Prelude.{ℕ, ◌+◌, ◌%◌, ◌^◌, ◌<◌, ◌≡◌, refl, arith, true, some, lt→ltb}
use slatedb_go.Prelude.Result.{ok, err}
use slatedb_go.Sst.{Ulids}
use slatedb_go.Manifest.{
  Manifest, fenced, ManifestStore, EpochType, FenceableManifest, add_epoch, epoch_of, stored_epoch,
  check_epoch, update_manifest, refresh_stored, refreshed, new_fenceable, db_state, refresh,
}

pub check_epoch-same :
    (f : FenceableManifest) → f.local_epoch ≡ stored_epoch f → check_epoch f ≡ ok true
unfolding check_epoch
check_epoch-same f same = ground arith

module _ {S : Type 0} (u : Ulids) (st : ManifestStore S) where
  -- A client of an older epoch is fenced when it refreshes.
  pub stopped :
      (s : S) (f : FenceableManifest) (m : Manifest) (id : ℕ)
      → st.latest s ≡ ok (some (id, m))
      → f.local_epoch < epoch_of f.epoch_type m
      → refresh u st s f ≡ ok (record f { stored = record { id = id; manifest = m } }, err fenced)
  unfolding refresh refresh_stored refreshed db_state check_epoch stored_epoch
  stopped s f m id now older =
      rw (now, refresh) (rw (lt→ltb f.local_epoch (epoch_of f.epoch_type m) older) refl)

module _ {S : Type 0} (u : Ulids) (st : ManifestStore S) where
  -- A manifest is taken over under the next id and with the next epoch, if that can be written.
  pub new_fenceable_lem :
      (kind : EpochType) (s t : S) (id : ℕ) (m : Manifest)
      → st.write s ((id + 1) % 2 ^ 64) (add_epoch kind m) ≡ ok t
      → new_fenceable u st kind s (record { id = id; manifest = m })
        ≡ ok (
          t,
          record {
            stored = record { id = (id + 1) % 2 ^ 64; manifest = add_epoch kind m };
            local_epoch = epoch_of kind (add_epoch kind m);
            epoch_type = kind;
          },
        )
  unfolding new_fenceable update_manifest
  new_fenceable_lem kind s t id m e = rw e refl
