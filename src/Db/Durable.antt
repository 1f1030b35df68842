-- ===== src/Db/Durable.antt =====
-- A Put that waits until its WAL is durable (slatedb/db.go).
use slatedb_go.Prelude.{ℕ, suc, ◌^◌, ◌<◌, ◌≡◌, ◌≢◌, false, List, length, All}
use slatedb_go.Prelude.Bytes.{Bytes}
use slatedb_go.Prelude.Result.{Result, panic}
use slatedb_go.Sst.{TableId, Handle}
use slatedb_go.Snapshot.{Snapshot}
use slatedb_go.Table.{Skiplist, Element}
use slatedb_go.Table.Entries.{IsOrderedMap, total}
use slatedb_go.Table.Put.{IsTable}
use slatedb_go.State.{Deques, IsDeque, DbState}
use slatedb_go.Db.{DbError}
use slatedb_go.Db.Flush.{IsReady}

module _ {M : Type 0} (d : Deques) (sk : Skiplist M) (q : IsDeque d) (o : IsOrderedMap sk)
    (write : TableId → List Element → Result DbError Handle)
    (safe : (id : TableId) (l : List Element) → write id l ≢ panic) (limit fuel : ℕ) where
  -- The WALs can be flushed: there is more fuel than WALs, nobody was notified yet, and the bytes are
  -- those of values, below 2 ^ 64 in the open WAL.
  pub record CanFlush (t : DbState d M) : Type 0 where
    pub short : suc (length (d.items t.imm_wals)) < fuel
    pub ready : All (IsReady sk) (d.items t.imm_wals)
    pub memtable : IsTable sk t.memtable.table
    pub wal : IsTable sk t.wal.table
    pub waiting : t.wal.table.is_durable ≡ false
    pub small : total (sk.front t.wal.table.skl) < 2 ^ 64
