-- ===== src/Db/Flusher/Fenced.antt =====
-- The flusher of slatedb/flush.go behind a newer client of its kind.
use slatedb_go.Prelude.{ℕ, ◌<◌, ◌≡◌, refl, some, List, [], ◌∷◌, ◌++◌}
use slatedb_go.Prelude.Result.{Result, ok}
use slatedb_go.Sst.{Ulid, Ulids, TableId, Handle, new_id_compacted}
use slatedb_go.Table
use slatedb_go.Table.{Skiplist, Element, ImmutableMemtable, new_memtable, new_immutable_memtable}
use slatedb_go.State.{Deques, IsDeque, DbState}
use slatedb_go.State.Level0.{oldest_imm_memtable-last, move_lem}
use slatedb_go.Manifest.{Manifest, fenced, ManifestStore, epoch_of}
use slatedb_go.Db.{DbError}
use slatedb_go.Db.Flusher.{
  after_refresh, load_manifest, write_manifest_safely, Flusher, manifest_failed, after_write,
  flush_imm_memtables,
}
use slatedb_go.Prelude.Result.{Stuck}
use slatedb_go.Manifest.Fencing.{stopped}

module _ {M S : Type 0} (d : Deques) (sk : Skiplist M) (u : Ulids) (st : ManifestStore S) where
  -- A flusher of an older epoch is told so at its next load, and neither the files nor the state of
  -- the database change.
  pub write_manifest_safely-fenced :
      (es : List (S → S)) (e : S → S) (f : Flusher d M S) (id : ℕ) (m : Manifest)
      → st.latest f.files ≡ ok (some (id, m))
      → f.manifest.local_epoch < epoch_of f.manifest.epoch_type m
      → write_manifest_safely d sk u st (e ∷ es) f
        ≡ ok (
          record f { manifest = record f.manifest { stored = record { id = id; manifest = m } } },
          some fenced,
        )
  unfolding write_manifest_safely load_manifest after_refresh
  write_manifest_safely-fenced es e f id m now older =
      let g : Flusher d M S = record f {
        manifest = record f.manifest { stored = record { id = id; manifest = m } };
      } in
      let stops : load_manifest d sk u st {E = Stuck} f ≡ ok (g, some fenced) =
        rw (stopped u st f.files f.manifest m id now older, load_manifest) refl in
      rw (stops, write_manifest_safely) refl

  -- If another client of the flusher's kind has opened the database, and the oldest memtable can be
  -- written as a table, then the flush returns ErrFenced and does not change the files of the
  -- manifest; in memory the memtable has become the newest table of level 0.
  pub flush_imm_memtables-fenced :
      (q : IsDeque d) (write : TableId → List Element → Result DbError Handle) (x : Ulid)
      (e : S → S) (others : List (S → S)) (rounds : List (Ulid × List (S → S))) (f : Flusher d M S)
      (ms : List (ImmutableMemtable M)) (t : ImmutableMemtable M) (h : Handle) (id : ℕ)
      (m : Manifest)
      → d.items f.db.imm_memtables ≡ ms ++ t ∷ []
      → write (new_id_compacted u x) (Table.iter sk t.table) ≡ ok h
      → st.latest f.files ≡ ok (some (id, m))
      → f.manifest.local_epoch < epoch_of f.manifest.epoch_type m
      → (g : Flusher d M S) × (flush_imm_memtables d sk u st write ((x, e ∷ others) ∷ rounds) f
          ≡ ok (g, some (manifest_failed fenced)))
        × (g.files ≡ f.files)
        × (d.items g.db.imm_memtables ≡ ms)
        × (g.db.core.l0 ≡ h ∷ f.db.core.l0)
  unfolding flush_imm_memtables after_write
  flush_imm_memtables-fenced q write x e others rounds f ms t h id m left made now older =
      let (p, moved, items) = move_lem d sk q f.db ms t left h in
      let s : DbState d M = record f.db {
        imm_memtables = p;
        core = record f.db.core {
          l0 = h ∷ f.db.core.l0;
          last_compacted_wal_sst_id = t.last_wal_id;
        };
      } in
      let f1 : Flusher d M S = record f { db = s } in
      let g : Flusher d M S = record f1 {
        manifest = record f.manifest { stored = record { id = id; manifest = m } };
      } in
      let done : flush_imm_memtables d sk u st write ((x, e ∷ others) ∷ rounds) f
          ≡ ok (g, some (manifest_failed fenced)) =
        rw (oldest_imm_memtable-last d sk q f.db ms t left, flush_imm_memtables)
          (rw made
            (rw moved (rw (write_manifest_safely-fenced others e f1 id m now older) refl))) in
      (g, done, refl, items, refl)
