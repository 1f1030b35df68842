-- ===== src/Db/Open/Samples.antt =====
-- A restart behind two WALs.
use slatedb_go.Prelude.{◌≡◌, refl, tt, arith, some, none, List, [], ◌∷◌}
use slatedb_go.Prelude.Bytes.{Bytes}
use slatedb_go.Prelude.Result.{ok}
use slatedb_go.Types.{RowEntry}
use slatedb_go.Sst.{new_id_wal, table, plain_ulids}
use slatedb_go.Snapshot.{new_core}
use slatedb_go.Table.Listed.{Listed, listed, listed-IsOrderedMap}
use slatedb_go.State.{DbState}
use slatedb_go.State.Listed.{listed_deques, listed_deques-IsDeque}
use slatedb_go.Manifest.{Manifest, FenceableManifest, writer_epoch}
use slatedb_go.Manifest.Latest.{keeping}
use slatedb_go.Db.{committed, find_in_memory}
use slatedb_go.Db.Replay.{WalTables}
use slatedb_go.Db.Replay.Reads.{overlay_tables, Holds}
use slatedb_go.Db.Open.{open_with_options}
use slatedb_go.Db.Open.Restart.{open_with_options_lem}

abbrev manifest : Manifest
manifest = record {
  core = record new_core { last_compacted_wal_sst_id = 1; next_wal_sst_id = 3 };
  writer_epoch = 3;
  compactor_epoch = 1;
}

abbrev next : Manifest
next = record manifest { writer_epoch = 4 }

abbrev opened : FenceableManifest
opened = record {
  stored = record { id = 8; manifest = next };
  local_epoch = 4;
  epoch_type = writer_epoch;
}

abbrev wal_entries : List RowEntry
wal_entries = record { key = 1 ∷ []; value = record { value = 10 ∷ []; kind = 0 } } ∷ []

abbrev tables : WalTables
tables = record {
  list = λ a. ok (2 ∷ 3 ∷ []);
  open_table = λ id. ok (record (table [] []) { id = id });
  entries = λ h. ok wal_entries;
}

tables-Holds : Holds tables (2 ∷ 3 ∷ []) (wal_entries ∷ wal_entries ∷ [])
tables-Holds = (
  (record (table [] []) { id = new_id_wal 2 }, refl, refl, refl),
  ((record (table [] []) { id = new_id_wal 3 }, refl, refl, refl), tt),
)

open_with_options_lem_example :
    (db : DbState listed_deques Listed) × (open_with_options listed_deques listed 1000 tables
        plain_ulids keeping
        (some (7, manifest))
      ≡ ok (some (8, next), opened, db))
    × (db.core.next_wal_sst_id ≡ 4)
    × ((k : Bytes)
        → find_in_memory listed_deques listed db committed k
          ≡ overlay_tables k (wal_entries ∷ wal_entries ∷ []) (ok none))
open_with_options_lem_example =
    open_with_options_lem listed_deques listed listed_deques-IsDeque listed-IsOrderedMap plain_ulids
      keeping 1000 tables (2 ∷ 3 ∷ []) (wal_entries ∷ wal_entries ∷ []) (some (7, manifest))
      (some (8, next)) 7 manifest refl refl refl (omega arith) (refl, (refl, tt)) tables-Holds
      (omega arith) (omega arith) (omega arith)
