-- ===== src/Lib.antt =====
-- slatedb-go, an embedded storage engine (LSM tree) over object storage. A write goes to the WAL,
-- from there to a memtable, from there to a table at level 0, and the compactor merges level 0 into
-- sorted runs; a read asks these in the same order.
--
-- The parts of the program and the files that model them, by their paths in the repository:
-- - internal/types (types.go, errors.go): values, rows and warnings, in Types and Types/Warn.
-- - internal/compress/compression.go: the choice of a codec, in Compress. The compressors are not
--   part of the repository: they are the record `Library`, and `IsLossless` says that each reads
--   back what it wrote.
-- - encoding/binary, hash/crc32, strconv and sort, as far as the code uses them: BigEndian, Crc,
--   Decimal and Search.
-- - internal/sstable/block/row.go: the v0 row codec, in Row; `computePrefixChunks` is in Row/Prefix.
-- - internal/sstable/block/block.go: block, builder and codec, in Block.
-- - internal/sstable/block/iterator.go: iteration over a block, in Block/Iterator, and from a key, in
--   Block/Iterator/AtKey.
-- - internal/sstable (table.go, sstable.go): table ids, handles and metadata, in Sst. Package ulid is
--   the record `Ulids`, and `IsFaithful` says that the text of a ULID parses to it.
-- - internal/sstable/iterator.go: the binary search in the index of a table, in Sst/FirstBlock, and the
--   iteration over a table, in Sst/Iterator, with ReadIndex and ReadBlocksUsingIndex of
--   slatedb/store/table_store.go, where each handle has its object.
-- - internal/sstable (flatbuf.go, builder.go, decode.go, blob.go): the index and the metadata, in
--   Sst/Index; the builder of a table, in Sst/Build; what is read of one, in Sst/Read, and its blocks,
--   in Sst/Blocks. The code that flatbuffers generates is the record `FlatBuffers`, and `IsReadBack`
--   says that it reads what it wrote.
-- - internal/iter (entry.go, merge.go): iteration over given entries, in Iter, and the merge of
--   sorted iterators, in Iter/Merge. Package container/heap is a list from which the least is taken.
-- - internal/sstable/bloom/bloom.go: the bloom filter, its builder and its codec, in Bloom. The number
--   of probes, computed in float32, is a parameter.
-- - slatedb/compacted/sortedrun.go: a sorted run and the choice of its table, in SortedRun.
-- - slatedb/table (kvtable.go, memtable.go, wal.go): the in-memory tables, in Table. Package skiplist
--   is the record `Skiplist`, and `IsOrderedMap` (Table/Entries) says that it is a map in the order
--   of its keys; Table/Listed has such a map.
-- - slatedb/state/db_state.go: the snapshot that the manifest carries, in Snapshot, and the state of an
--   open database, in State. Package deque is the record `Deques` with `IsDeque`; State/Listed has
--   such a deque.
-- - slatedb/db.go, slatedb/flush.go: put, delete, get and the flush of the WALs, in Db. A write with
--   AwaitDurable ends with a wait, which is an argument: Db/Durable is about a wait in which the WALs
--   are flushed. The flush of the memtables with the retries of the manifest is in Db/Flusher; the
--   replay of the WALs and Open, in Db/Replay and Db/Open, with the channel of 255 places that nobody
--   reads before the replay has ended. Later the flusher reads it, and a message is no state. The
--   search of the tables in the object store, the writer of a table and the tables of the WALs (the
--   record `WalTables`) are parameters there.
-- - slatedb/compaction (state.go, compactor.go, size_tiered_compaction.go): the state of the compactor
--   with the compactions that it is given, and the scheduler, in Compaction.
-- - slatedb/store/manifest_store.go, slatedb/manifest/manifest.go: stored and fenceable manifests, in
--   Manifest. The files of the manifest are the record `ManifestStore`, of which no law is assumed: it
--   looks whether a file exists and then writes it, and here this is one call, so a client that writes
--   between the two is not modelled. What the store answers to the calls of a theorem is a hypothesis
--   there. What other clients do between the calls is a schedule of steps on the files.
--
-- A byte slice is a list of numbers; a number of w bits keeps its wrap-around written out. A call
-- ends in a `Result`: a value, an error value, or a panic (a failed assertion, a read past the end
-- of a slice). A time.Time is the bit pattern of its Unix milliseconds and the nanoseconds below a
-- millisecond. A method that holds a lock is one step. The loop over the WALs to flush runs on fuel;
-- one round more than there are WALs is enough. The binary searches run on as much fuel as there are
-- places to search. The merge runs on fuel: more than there are entries is enough. A call of the
-- iterator over a table makes at most two rounds where no block is empty. The loop that writes the
-- manifest until it is accepted runs on a schedule of what other clients do before each attempt, and
-- ends where an attempt of the schedule is accepted.
--
-- Not modelled: the iterators over sorted runs, the execution of a compaction, the rest of the stores
-- over the object storage, the codec of the manifest and the goroutines around them; the generated
-- code of internal/flatbuf; output and the texts of errors.
mod Prelude
pub mod Types
pub mod BigEndian
pub mod Row
pub mod Compress
pub mod Crc
pub mod Block
pub mod Decimal
pub mod Sst
pub mod Search
pub mod SortedRun
pub mod Snapshot
pub mod Compaction
pub mod Table
pub mod State
pub mod Db
pub mod Manifest
pub mod Bloom
pub mod Iter
