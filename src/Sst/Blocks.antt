-- ===== src/Sst/Blocks.antt =====
-- internal/sstable/decode.go: the blocks of a table that are read. A slice of the bytes that were read may
-- reach into the array behind them: `tail` is what is there, and `spare i` is what stands in the
-- array of the block `i` behind its decompressed bytes.
pub mod Found
pub mod One
pub mod Decoded
pub mod Rows
pub mod Samples
use slatedb_go.Prelude.{
  ℕ, zero, suc, ◌+◌, ◌-◌, ◌%◌, ◌^◌, Bool, true, false, ◌||◌, Option, none, some, List, [], ◌∷◌,
  ◌++◌, length, take, drop, get_elem?, ltb, leb, ◌==◌, if◌then◌else◌,
}
use slatedb_go.Prelude.Bytes.{Bytes}
use slatedb_go.Prelude.Result.{Result, ok, err, panic, ◌>>=◌}
use slatedb_go.Compress.{Library}
use slatedb_go.Block
use slatedb_go.Block.{Block}
use slatedb_go.Sst.{Info}
use slatedb_go.Sst.FirstBlock.{BlockMeta}
use slatedb_go.Sst.Index.{empty_range, range_too_large, Index, decode_index}
use slatedb_go.Sst.Build.{lift_block}
use slatedb_go.Sst.Read.{ReadError, Blob}

-- From `start` to before `end`.
pub record Range : Type 0 where
  pub start : ℕ
  pub end : ℕ

-- `blockMetaList[i].Offset`
unfoldable pub offset_at : List BlockMeta → ℕ → Result ReadError ℕ
offset_at metas i = elim (get_elem? metas i) [ none ↦ panic | some m ↦ ok m.offset ]

unfoldable pub get_block_range : Range → Info → List BlockMeta → Result ReadError Range
get_block_range r info metas = do
  start ← offset_at metas r.start
  if ltb r.end (length metas)
      then (do end ← offset_at metas r.end; ok (record { start = start; end = end }))
      else ok (record { start = start; end = info.filter_offset })

-- In uint64 arithmetic.
abbrev pub sub64 : ℕ → ℕ → ℕ
sub64 a b = (a + (2 ^ 64 - b)) % 2 ^ 64

-- `bytes[from:to]`, with `tail` behind the bytes.
unfoldable pub slice : Bytes → Bytes → ℕ → ℕ → Result ReadError Bytes
slice bytes tail from to =
    if ltb to from || ltb (length (bytes ++ tail)) to
    then panic
    else ok (take (to - from) (drop from (bytes ++ tail)))

-- The bytes of the block `i`, in those that were read from `start` on.
unfoldable pub block_bytes : Bytes → Bytes → List BlockMeta → ℕ → ℕ → Result ReadError Bytes
block_bytes bytes tail metas start i = do
  at ← offset_at metas i
  if i == length metas - 1
      then slice bytes [] (sub64 at start) (length bytes)
      else do next ← offset_at metas (i + 1); slice bytes tail (sub64 at start) (sub64 next start)

module _ (l : Library) where
  -- The loop over `n` blocks from `i` on.
  unfoldable pub read_loop :
      (ℕ → Bytes)
      → Bytes
      → Info
      → List BlockMeta
      → Bytes
      → ℕ
      → ℕ
      → ℕ
      → Result ReadError (List Block)
  read_loop spare tail info metas bytes start zero i = ok []
  read_loop spare tail info metas bytes start (suc n) i = do
    b ← block_bytes bytes tail metas start i
    blk ← lift_block (Block.decode l (spare i) b info.compression_codec)
    rest ← read_loop spare tail info metas bytes start n (i + 1)
    ok (blk ∷ rest)

  unfoldable pub read_blocks :
      (ℕ → Bytes) → Bytes → Info → List BlockMeta → Range → Blob → Result ReadError (List Block)
  read_blocks spare tail info metas r o =
      if leb r.end r.start
      then err empty_range
      else if ltb (length metas) r.end
      then err range_too_large
      else do
        rng ← get_block_range r info metas
        bytes ← o.read_range rng.start rng.end
        read_loop spare tail info metas bytes rng.start (r.end - r.start) r.start

  pub read_index_raw : Bytes → Info → Bytes → Result ReadError Index
  read_index_raw tail info bytes = do
    b ← slice bytes tail info.index_offset ((info.index_offset + info.index_len) % 2 ^ 64)
    decode_index l b info.compression_codec

  pub read_block_raw : Bytes → Bytes → Info → List BlockMeta → ℕ → Bytes → Result ReadError Block
  read_block_raw spare tail info metas i bytes = do
    rng ← get_block_range (record { start = i; end = (i + 1) % 2 ^ 64 }) info metas
    b ← slice bytes tail rng.start rng.end
    lift_block (Block.decode l spare b info.compression_codec)
