-- ===== src/Sst/Iterator.antt =====
-- internal/sstable/iterator.go: iteration over the rows of a table. The texts of warnings are a parameter.
pub mod Drain
pub mod Rows
mod Samples
use Prim.Native.String.{String}
use slatedb_go.Prelude.{
  ℕ, zero, suc, ◌+◌, ◌%◌, ◌^◌, Bool, true, false, Option, none, some, List, [], ◌∷◌, length, map,
  leb, if◌then◌else◌,
}
use slatedb_go.Prelude.Bytes.{Bytes}
use slatedb_go.Prelude.Result.{Result, ok, err, panic, ◌>>=◌, widen, Stuck, out_of_fuel}
use slatedb_go.Types.{RowEntry}
use slatedb_go.Compress.{Library}
use slatedb_go.Types.Warn
use slatedb_go.Types.Warn.{ErrWarn}
use slatedb_go.Block.{Block}
use slatedb_go.Block.Iterator.{
  Warning, Iterator as BlockIterator, new_iterator, next_entry as next_in_block,
}
use slatedb_go.Block.Iterator.AtKey.{AtKeyError, new_iterator_at_key}
use slatedb_go.Sst.{Handle}
use slatedb_go.Sst.FirstBlock.{first_block}
use slatedb_go.Sst.Index.{FlatBuffers, Index, block_meta}
use slatedb_go.Sst.Read.{ReadError, Blob, read_index}
use slatedb_go.Sst.Blocks.{Range, read_blocks}

-- The interface TableStore.
pub record TableStore : Type 0 where
  pub read_index : Handle → Result ReadError Index
  pub read_blocks_using_index : Handle → Range → Index → Result ReadError (List Block)

-- ReadIndex and ReadBlocksUsingIndex of the store of tables (slatedb/store/table_store.go): each handle
-- has its object.
abbrev pub object_index : Library → (Handle → Blob) → Handle → Result ReadError Index
object_index l object h = read_index l h.info (object h)

abbrev pub object_blocks :
    Library
    → FlatBuffers
    → (ℕ → Bytes)
    → Bytes
    → (Handle → Blob)
    → Handle
    → Range
    → Index
    → Result ReadError (List Block)
object_blocks l fb spare tail object h r x =
    read_blocks l spare tail h.info (block_meta fb x) r (object h)

unfoldable pub over_objects :
    Library → FlatBuffers → (ℕ → Bytes) → Bytes → (Handle → Blob) → TableStore
over_objects l fb spare tail object = record {
  read_index = object_index l object;
  read_blocks_using_index = object_blocks l fb spare tail object;
}

pub data IterError : Type 0 where
  reading : ReadError → IterError
  zero_blocks : Range → IterError
  at_key : AtKeyError → IterError

-- How warnings are written.
pub record Texts : Type 0 where
  pub of_block : Warning → String
  pub of_fetch : Handle → IterError → String

pub record TableIterator : Type 0 where
  pub block_iter : Option BlockIterator
  pub warn : ErrWarn
  pub handle : Handle
  pub index : Index
  pub from_key : Option Bytes
  pub next_block : ℕ

unfoldable pub new_table_iterator : TableStore → Handle → Result ReadError TableIterator
new_table_iterator store h = do
  index ← store.read_index h
  ok (record {
    block_iter = none;
    warn = [];
    handle = h;
    index = index;
    from_key = none;
    next_block = 0;
  })

unfoldable pub lift_at_key :
    Result AtKeyError BlockIterator → Result IterError (Option BlockIterator)
lift_at_key (ok b) = ok (some b)
lift_at_key (err e) = err (at_key e)
lift_at_key panic = panic

unfoldable pub start_block : Option Bytes → Block → Result IterError (Option BlockIterator)
start_block none b = ok (some (new_iterator b))
start_block (some key) b = lift_at_key (new_iterator_at_key b key)

module _ (store : TableStore) (fb : FlatBuffers) where
  -- The key is not nil.
  pub new_table_iterator_at_key : Handle → Bytes → Result ReadError TableIterator
  new_table_iterator_at_key h key = do
    index ← store.read_index h
    ok (record {
      block_iter = none;
      warn = [];
      handle = h;
      index = index;
      from_key = some key;
      next_block = first_block (block_meta fb index) key;
    })

  -- The number of the next block is raised also where the key is not found for an error.
  unfoldable pub fetched :
      TableIterator
      → Range
      → Result ReadError (List Block)
      → TableIterator × Result IterError (Option BlockIterator)
  fetched it r (err e) = (it, err (reading e))
  fetched it r panic = (it, panic)
  fetched it r (ok []) = (it, err (zero_blocks r))
  fetched it r (ok (b ∷ bs)) =
      (record it { next_block = (it.next_block + 1) % 2 ^ 64 }, start_block it.from_key b)

  unfoldable pub next_block_iter :
      TableIterator → TableIterator × Result IterError (Option BlockIterator)
  next_block_iter it =
      if leb (length (block_meta fb it.index)) it.next_block
      then (it, ok none)
      else let r : Range = record { start = it.next_block; end = (it.next_block + 1) % 2 ^ 64 } in
        fetched it r (store.read_blocks_using_index it.handle r it.index)

  module _ (texts : Texts) where
    unfoldable pub after_fetch :
        TableIterator × Result IterError (Option BlockIterator)
        → Result Stuck (Option BlockIterator × TableIterator)
    after_fetch (it, ok b) = ok (b, record it { block_iter = b })
    after_fetch (it, err e) =
        ok (none, record it { warn = Warn.add it.warn (texts.of_fetch it.handle e) })
    after_fetch (it, panic) = panic

    -- The block that is being read, or the next one.
    unfoldable pub current :
        Option BlockIterator → TableIterator → Result Stuck (Option BlockIterator × TableIterator)
    current (some b) it = ok (some b, it)
    current none it = after_fetch (next_block_iter it)

    -- NextEntry, in at most `fuel` rounds.
    unfoldable pub next_entry : ℕ → TableIterator → Result Stuck (Option RowEntry × TableIterator)
    next_entry zero it = err out_of_fuel
    next_entry (suc fuel) it = do
      (o, it) ← current it.block_iter it
      elim o [
        | none ↦ ok (none, it)
        | some b ↦ do
          (b, e) ← widen (next_in_block b)
          elim e [
            | some x ↦ ok (some x, record it { block_iter = some b })
            | none ↦ next_entry fuel (record it {
              block_iter = none;
              warn = Warn.merge it.warn (some (map texts.of_block b.warn));
            })
          ]
      ]

    -- A client's loop of at most `calls` calls.
    unfoldable pub collect : ℕ → ℕ → TableIterator → Result Stuck (List RowEntry)
    collect zero fuel it = err out_of_fuel
    collect (suc calls) fuel it = do
      (e, it) ← next_entry fuel it
      elim e [ none ↦ ok [] | some x ↦ do l ← collect calls fuel it; ok (x ∷ l) ]
