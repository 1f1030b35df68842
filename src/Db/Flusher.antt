-- ===== src/Db/Flusher.antt =====
-- slatedb/flush.go: MemtableFlusher, and from slatedb/db.go FlushMemtableToL0. What the other clients
-- of the manifest do between the load and the write of a round is an argument: a list of their
-- steps, one for a round, which is the fuel of the loop as well.
pub mod Retry
pub mod Level0
pub mod Fenced
mod Samples
use slatedb_go.Prelude.{ℕ, Bool, true, false, Option, none, some, List, [], ◌∷◌, if◌then◌else◌}
use slatedb_go.Prelude.Result.{Result, ok, err, panic, ◌>>=◌, Stuck, out_of_fuel, widen}
use slatedb_go.Sst.{Ulid, Ulids, TableId, Handle, new_id_compacted}
use slatedb_go.Snapshot.{Snapshot, take_snapshot}
use slatedb_go.Table
use slatedb_go.Table.{Skiplist, Element, ImmutableMemtable}
use slatedb_go.State.{
  Deques, DbState, freeze_memtable, oldest_imm_memtable, move_imm_memtable_to_l0, refresh_db_state,
}
use slatedb_go.Manifest.{
  ManifestError, already_exists, fenced, manifest_absent, store_error, ManifestStore,
  FenceableManifest, refresh, update_db_state,
}
use slatedb_go.Db.{DbError}

-- The database as the flusher sees it, the files of the manifest, and the flusher's manifest.
pub record Flusher (d : Deques) (M : Type 0) (S : Type 0) : Type 0 where
  pub db : DbState d M
  pub files : S
  pub manifest : FenceableManifest

pub data FlushError : Type 0 where
  not_flushed : FlushError
  table_failed : DbError → FlushError
  manifest_failed : ManifestError → FlushError

-- errors.Is(err, ErrAlreadyExists)
pub is_already_exists : ManifestError → Bool
is_already_exists already_exists = true
is_already_exists fenced = false
is_already_exists manifest_absent = false
is_already_exists (store_error n) = false

module _ {M S : Type 0} (d : Deques) (sk : Skiplist M) (u : Ulids) (st : ManifestStore S) where
  -- The manifest was read anew, also where the check of the epoch fails.
  pub after_refresh :
      {E : Type 0}
      → Flusher d M S
      → Result ManifestError Snapshot
      → Result E (Flusher d M S × Option ManifestError)
  after_refresh f (ok core) = ok (record f { db = refresh_db_state d sk u f.db core }, none)
  after_refresh f (err e) = ok (f, some e)
  after_refresh f panic = panic

  -- loadManifest
  pub load_manifest : {E : Type 0} → Flusher d M S → Result E (Flusher d M S × Option ManifestError)
  load_manifest f = elim (refresh u st f.files f.manifest) [
    | ok p ↦ after_refresh (record f { manifest = p.0 }) p.1
    | err e ↦ ok (f, some e)
    | panic ↦ panic
  ]

  -- writeManifest
  pub write_manifest :
      {E : Type 0} → Flusher d M S → Result E (Flusher d M S × Option ManifestError)
  write_manifest f = elim (update_db_state u st f.files f.manifest (take_snapshot u f.db.core)) [
    | ok p ↦ ok (record f { files = p.0; manifest = p.1 }, none)
    | err e ↦ ok (f, some e)
    | panic ↦ panic
  ]

  -- writeManifestSafely
  pub write_manifest_safely :
      List (S → S) → Flusher d M S → Result Stuck (Flusher d M S × Option ManifestError)
  write_manifest_safely [] f = err out_of_fuel
  write_manifest_safely (others ∷ rest) f = do
    (g, e) ← load_manifest f
    elim e [
      | some x ↦ ok (g, some x)
      | none ↦ do
        (h, e) ← write_manifest (record g { files = others g.files })
        elim e [
          | none ↦ ok (h, none)
          | some x ↦ elim (is_already_exists x) [
            | true ↦ write_manifest_safely rest h
            | false ↦ ok (h, some x)
          ]
        ]
    ]

  module _ (write : TableId → List Element → Result DbError Handle) where
    -- The rest of a round of flushImmMemtablesToL0, with its error.
    pub after_write :
        Option ManifestError
        → Flusher d M S
        → Result Stuck (Flusher d M S × Option FlushError)
        → Result Stuck (Flusher d M S × Option FlushError)
    after_write none f rest = rest
    after_write (some e) f rest = ok (f, some (manifest_failed e))

    -- flushImmMemtablesToL0. Each round has a new ULID and the steps of the others; `write` is
    -- flushImmTable.
    pub flush_imm_memtables :
        List (Ulid × List (S → S))
        → Flusher d M S
        → Result Stuck (Flusher d M S × Option FlushError)
    flush_imm_memtables [] f = err out_of_fuel
    flush_imm_memtables ((x, others) ∷ rounds) f = do
      oldest ← widen (oldest_imm_memtable d sk f.db)
      elim oldest [
        | none ↦ ok (f, none)
        | some m ↦ elim (write (new_id_compacted u x) (Table.iter sk m.table)) [
          | err e ↦ ok (f, some (table_failed e))
          | panic ↦ panic
          | ok h ↦ do
            s ← widen (move_imm_memtable_to_l0 d sk f.db m h)
            (g, e) ← write_manifest_safely others (record f { db = s })
            after_write e g (flush_imm_memtables rounds g)
        ]
      ]

    -- FlushMemtableToL0
    pub flush_memtable_to_l0 :
        List (Ulid × List (S → S))
        → Flusher d M S
        → Result Stuck (Flusher d M S × Option FlushError)
    flush_memtable_to_l0 rounds f = elim f.db.memtable.last_wal_id [
      | none ↦ ok (f, some not_flushed)
      | some id ↦ flush_imm_memtables rounds (record f { db = freeze_memtable d sk f.db id })
    ]
