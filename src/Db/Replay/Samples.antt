-- ===== src/Db/Replay/Samples.antt =====
-- The replay of two WALs into an empty memtable.
use slatedb_go.Prelude.{◌≡◌, refl, tt, arith, none, List, [], ◌∷◌, ℕ}
use slatedb_go.Prelude.Bytes.{Bytes}
use slatedb_go.Prelude.Result.{Result, ok, panic}
use slatedb_go.Types.{RowEntry}
use slatedb_go.Sst.{Handle, new_id_wal, table}
use slatedb_go.Snapshot.{new_core}
use slatedb_go.Table.{new_table}
use slatedb_go.Table.Put.{new_table-IsTable}
use slatedb_go.Table.Listed.{Listed, listed, listed-IsOrderedMap}
use slatedb_go.State.{DbState}
use slatedb_go.State.Listed.{listed_deques, listed_deques-IsDeque}
use slatedb_go.Db.{committed, DbError, find_in_memory}
use slatedb_go.Db.Replay.{WalTables, replay_wal}
use slatedb_go.Db.Replay.Reads.{overlay_tables, Holds, replay_wal_lem, replay_wal-panic}

abbrev entry : ℕ → ℕ → RowEntry
entry k v = record { key = k ∷ []; value = record { value = v ∷ []; kind = 0 } }

abbrev State : Type 0
State = DbState listed_deques Listed

-- WAL 1 is compacted; WALs 2 and 3 are not.
abbrev opened : State
opened = record {
  wal = record { table = new_table listed };
  memtable = record { table = new_table listed; last_wal_id = none };
  imm_wals = [];
  imm_memtables = [];
  core = record new_core { last_compacted_wal_sst_id = 1; next_wal_sst_id = 2 };
}

abbrev first : List RowEntry
first = entry 1 10 ∷ entry 2 20 ∷ []

abbrev entries : Handle → Result DbError (List RowEntry)
entries h = ok first

abbrev tables : WalTables
tables = record {
  list = λ a. ok (2 ∷ 3 ∷ []);
  open_table = λ id. ok (record (table [] []) { id = id });
  entries = entries;
}

tables-Holds : Holds tables (2 ∷ 3 ∷ []) (first ∷ first ∷ [])
tables-Holds = (
  (record (table [] []) { id = new_id_wal 2 }, refl, refl, refl),
  ((record (table [] []) { id = new_id_wal 3 }, refl, refl, refl), tt),
)

replay_wal_lem_example :
    (t : State) × (replay_wal listed_deques listed 1000 tables opened ≡ ok t)
    × (t.core.next_wal_sst_id ≡ 4)
    × ((k : Bytes)
        → find_in_memory listed_deques listed t committed k
          ≡ overlay_tables k
              (first ∷ first ∷ [])
              (find_in_memory listed_deques listed opened committed k))
replay_wal_lem_example =
    replay_wal_lem listed_deques listed listed_deques-IsDeque listed-IsOrderedMap 1000 tables
      (2 ∷ 3 ∷ []) (first ∷ first ∷ []) opened refl (omega arith) (refl, (refl, tt)) tables-Holds
      (omega arith) (omega arith) (omega arith) (new_table-IsTable listed listed-IsOrderedMap)

-- WAL 4 was frozen, and its table was not written before the crash.
abbrev ahead : State
ahead = record opened { core = record opened.core { next_wal_sst_id = 5 } }

replay_wal-panic_example : replay_wal listed_deques listed 1000 tables ahead ≡ panic
replay_wal-panic_example =
    replay_wal-panic listed_deques listed listed_deques-IsDeque listed-IsOrderedMap 1000 tables
      (2 ∷ 3 ∷ []) (first ∷ first ∷ []) ahead refl (omega arith) (refl, (refl, tt)) tables-Holds
      (omega arith) (omega arith) (new_table-IsTable listed listed-IsOrderedMap)
