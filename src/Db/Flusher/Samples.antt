-- ===== src/Db/Flusher/Samples.antt =====
-- A flush of two memtables while a compactor writes the manifest once.
use slatedb_go.State.Level0.{IsCut}
use slatedb_go.Prelude.{
  Option, ◌++◌, sym, ◌∙◌, ◌==◌, false, ℕ, ◌+◌, ◌%◌, ◌^◌, ◌≡◌, ◌<◌, refl, tt, arith, inl, inr, none,
  some, List, [], ◌∷◌,
}
use slatedb_go.Prelude.Result.{Result, ok}
use slatedb_go.Sst.{Ulid, TableId, Handle, plain_ulids, table}
use slatedb_go.Snapshot.{Snapshot, new_core, to_core_state, take_snapshot}
use slatedb_go.Table.{Element, new_table, new_memtable}
use slatedb_go.Table.Listed.{Listed, listed}
use slatedb_go.State.Listed.{listed_deques, listed_deques-IsDeque}
use slatedb_go.Manifest.{Manifest, fenced, EpochType, epoch_of}
use slatedb_go.Manifest.Latest.{Latest, keeping}
use slatedb_go.Db.{DbError}
use slatedb_go.Db.Flusher.{
  Flusher, manifest_failed, not_flushed, write_manifest_safely, flush_imm_memtables,
  flush_memtable_to_l0,
}
use slatedb_go.Db.Flusher.Retry.{Fair, Written, write_manifest_safely_lem}
use slatedb_go.Db.Flusher.Level0.{Served, Made, flush_memtable_to_l0_lem}
use slatedb_go.Db.Flusher.Fenced.{flush_imm_memtables-fenced}

abbrev manifest : Manifest
manifest = record { core = new_core; writer_epoch = 3; compactor_epoch = 1 }

abbrev flusher : Flusher listed_deques Listed Latest
flusher = record {
  db = record {
    wal = record { table = new_table listed };
    memtable = record { table = new_table listed; last_wal_id = some 5 };
    imm_wals = [];
    imm_memtables = record { table = new_table listed; last_wal_id = 4 } ∷ [];
    core = new_core;
  };
  files = some (7, manifest);
  manifest = record {
    stored = record { id = 7; manifest = manifest };
    local_epoch = 3;
    epoch_type = EpochType.writer_epoch;
  };
}

-- A compactor writes the next manifest.
abbrev compactor : Latest → Latest
compactor none = none
compactor (some (id, m)) = some ((id + 1) % 2 ^ 64, m)

abbrev nobody : Latest → Latest
nobody s = s

abbrev contended : List (Latest → Latest)
contended = compactor ∷ nobody ∷ []

-- No loaded manifest has a last compacted table.
abbrev Uncompacted : Option Ulid → Type 0
Uncompacted last = last ≡ none

nobody-Fair :
    (K : Latest → Type 0) (id : ℕ) (m : Manifest)
    → m.writer_epoch ≡ 3
    → m.core.l0_last_compacted ≡ none
    → ((id + 1) % 2 ^ 64 == id) ≡ false
    → ((core : Snapshot)
        → core.l0_last_compacted ≡ none
        → K (some ((id + 1) % 2 ^ 64, record m { core = core })))
    → Fair keeping Uncompacted EpochType.writer_epoch 3 K (some (id, m)) (nobody ∷ [])
unfolding epoch_of
nobody-Fair K id m epoch last other goes = (
  id,
  m,
  refl,
  sym epoch,
  last,
  inl (λ core same.
      (some ((id + 1) % 2 ^ 64, record m { core = core }), rw other refl, goes core (same ∙ last))),
)

contended-Fair :
    (K : Latest → Type 0)
    → ((core : Snapshot)
        → core.l0_last_compacted ≡ none
        → K (some (9, record manifest { core = core })))
    → Fair keeping Uncompacted EpochType.writer_epoch 3 K (some (7, manifest)) contended
unfolding epoch_of
contended-Fair K goes = (
  7,
  manifest,
  refl,
  refl,
  refl,
  inr ((λ core. refl), nobody-Fair K 8 manifest refl refl refl goes),
)

abbrev made : Handle
made = table (1 ∷ []) (5 ∷ [])

abbrev write : TableId → List Element → Result DbError Handle
write id l = ok made

write_manifest_safely_lem_example :
    (g : Flusher listed_deques Listed Latest) × (write_manifest_safely listed_deques listed
        plain_ulids keeping contended flusher
      ≡ ok (g, none))
    × Written listed_deques listed plain_ulids keeping Uncompacted (λ t. Unit) flusher g
write_manifest_safely_lem_example =
    write_manifest_safely_lem listed_deques listed plain_ulids keeping Uncompacted (λ t. Unit)
      contended flusher (contended-Fair (λ t. Unit) (λ core same. tt))

abbrev rounds : List (Ulid × List (Latest → Latest))
rounds = (1 ∷ [], contended) ∷ (2 ∷ [], nobody ∷ []) ∷ (3 ∷ [], []) ∷ []

rounds-Served : Served keeping Uncompacted EpochType.writer_epoch 3 rounds 2 (some (7, manifest))
rounds-Served =
    contended-Fair _
      (λ core last. nobody-Fair _ 9 (record manifest { core = core }) refl last refl (λ c p. tt))

flush_memtable_to_l0_lem_example :
    (g : Flusher listed_deques Listed Latest) × (flush_memtable_to_l0 listed_deques listed
        plain_ulids keeping write rounds flusher
      ≡ ok (g, none))
    × (g.db.memtable ≡ new_memtable listed)
    × (g.db.imm_memtables ≡ [])
    × (g.db.wal ≡ flusher.db.wal)
    × (g.db.imm_wals ≡ [])
    × (g.db.core.last_compacted_wal_sst_id ≡ 5)
    × ((hs : List Handle) × (cut : List Handle) × Made plain_ulids listed write rounds
          (record { table = flusher.db.memtable.table; last_wal_id = 5 } ∷ flusher.db.imm_memtables)
          hs
        × (hs ++ [] ≡ g.db.core.l0 ++ cut)
        × IsCut listed_deques listed plain_ulids Uncompacted cut)
    × ((s : Latest) × (id : ℕ) × (n : Manifest) × (keeping.write s id n ≡ ok g.files)
        × (n.core ≡ to_core_state plain_ulids (take_snapshot plain_ulids g.db.core)))
flush_memtable_to_l0_lem_example =
    flush_memtable_to_l0_lem listed_deques listed plain_ulids keeping Uncompacted write
      listed_deques-IsDeque (λ id l. (made, refl)) rounds flusher 5 refl rounds-Served

abbrev behind : Flusher listed_deques Listed Latest
behind = record flusher { files = some (9, record manifest { writer_epoch = 4 }) }

older :
    behind.manifest.local_epoch
    < epoch_of EpochType.writer_epoch (record manifest { writer_epoch = 4 })
unfolding epoch_of
older = omega arith

flush_imm_memtables-fenced_example :
    (g : Flusher listed_deques Listed Latest) × (flush_imm_memtables listed_deques listed
        plain_ulids keeping write
        ((1 ∷ [], nobody ∷ []) ∷ [])
        behind
      ≡ ok (g, some (manifest_failed fenced)))
    × (g.files ≡ behind.files)
    × (g.db.imm_memtables ≡ [])
    × (g.db.core.l0 ≡ made ∷ [])
flush_imm_memtables-fenced_example =
    flush_imm_memtables-fenced listed_deques listed plain_ulids keeping listed_deques-IsDeque write
      (1 ∷ []) nobody [] [] behind [] (record { table = new_table listed; last_wal_id = 4 }) made 9
      (record manifest { writer_epoch = 4 }) refl refl refl older

-- FlushMemtableToL0 before any WAL was flushed to the memtable.
unflushed :
    flush_memtable_to_l0 listed_deques listed plain_ulids keeping write rounds
      (record flusher { db = record flusher.db { memtable = new_memtable listed } })
    ≡ ok (
      record flusher { db = record flusher.db { memtable = new_memtable listed } },
      some not_flushed,
    )
unfolding flush_memtable_to_l0 new_memtable
unflushed = refl
