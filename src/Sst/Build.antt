-- ===== src/Sst/Build.antt =====
-- internal/sstable/builder.go: the builder of a table. An error ends the build, so the state behind
-- one is left out. The number of probes of the filter is a parameter, as in Bloom.
pub mod Laid
pub mod Parts
pub mod Readable
pub mod Stored
pub mod Kept
pub mod Added
pub mod Ended
mod Samples
use slatedb_go.Prelude.{
  ℕ, ◌+◌, ◌%◌, ◌^◌, Bool, true, false, Option, none, some, List, [], ◌∷◌, ◌++◌, length, leb, ◌==◌,
  if◌then◌else◌,
}
use slatedb_go.Prelude.Bytes.{Bytes}
use slatedb_go.Prelude.Result.{Result, ok, err, panic, ◌>>=◌, widen}
use slatedb_go.BigEndian.{be_bytes}
use slatedb_go.Types.{Value, tombstone, kind_key_value}
use slatedb_go.Compress.{Codec, Library}
use slatedb_go.Block
use slatedb_go.Block.{BlockError, plain_row, is_empty, bytes_of, clone_first}
use slatedb_go.Bloom
use slatedb_go.Bloom.{Filter}
use slatedb_go.Bloom.Codec.{FilterError}
use slatedb_go.State.{Deques}
use slatedb_go.Sst.{Info}
use slatedb_go.Sst.FirstBlock.{BlockMeta}
use slatedb_go.Sst.Index.{FlatBuffers, SstError, part, encode_index, encode_info}

pub record Config : Type 0 where
  pub block_size : ℕ
  pub min_filter_keys : ℕ
  pub filter_bits_per_key : ℕ
  pub compression : Codec

-- Table
pub record SsTable (d : Deques) : Type 0 where
  pub info : Info
  pub bloom : Option Filter
  pub blocks : d.Deque Bytes

pub record Builder (d : Deques) : Type 0 where
  pub block_builder : Block.Builder
  pub filter_builder : Bloom.Builder
  pub block_metas : List BlockMeta
  pub first_key : Option Bytes
  pub blocks : d.Deque Bytes
  pub current_len : ℕ
  pub num_keys : ℕ
  pub conf : Config

-- An error of a block or of the filter.
pub data PartError : Type 0 where
  block_failed : BlockError → PartError
  filter_failed : FilterError → PartError

unfoldable pub lift_block {ℓ} : {T : Type ℓ} → Result BlockError T → Result (SstError PartError) T
lift_block (ok t) = ok t
lift_block (err e) = err (part (block_failed e))
lift_block panic = panic

unfoldable pub lift_filter {ℓ} : {T : Type ℓ} → Result FilterError T → Result (SstError PartError) T
lift_filter (ok t) = ok t
lift_filter (err e) = err (part (filter_failed e))
lift_filter panic = panic

-- All blocks behind one another, as they are written.
unfoldable pub concat : List Bytes → Bytes
concat [] = []
concat (b ∷ l) = b ++ concat l

module _ (d : Deques) where
  unfoldable pub new_builder : Config → Builder d
  new_builder conf = record {
    block_builder = Block.new_builder conf.block_size;
    filter_builder = Bloom.new_builder conf.filter_bits_per_key;
    block_metas = [];
    first_key = none;
    blocks = d.new;
    current_len = 0;
    num_keys = 0;
    conf = conf;
  }

  pub next_block : Builder d → Result ⊥ (Option Bytes × Builder d)
  next_block b =
      if length (d.items b.blocks) == 0
      then ok (none, b)
      else do (x, q) ← d.pop_front b.blocks; ok (some x, record b { blocks = q })

  -- EncodeTable
  unfoldable pub encode_table : SsTable d → Bytes
  encode_table t = concat (d.items t.blocks)

  -- The metadata of a table whose last block, filter and index have these bytes.
  unfoldable pub info_of : Builder d → Bytes → Bytes → Bytes → Info
  info_of b blk filter index = record {
    first_key = bytes_of b.first_key;
    index_offset = (b.current_len + length (blk ++ filter)) % 2 ^ 64;
    index_len = length index;
    filter_offset = (b.current_len + length blk) % 2 ^ 64;
    filter_len = length filter;
    compression_codec = b.conf.compression;
  }

  -- What stands behind the index: the metadata and its offset.
  unfoldable pub footer : FlatBuffers → Builder d → Bytes → Info → Bytes
  footer fb b front info =
      encode_info fb info ++ be_bytes 4 ((b.current_len + length front) % 2 ^ 64 % 2 ^ 32)

  module _ (l : Library) where
    -- An empty builder of blocks gives a nil buffer.
    unfoldable pub finish_block : Builder d → Result (SstError PartError) (Bytes × Builder d)
    finish_block b = if is_empty b.block_builder then ok ([], b) else do
      blk ← lift_block (Block.build b.block_builder)
      buf ← lift_block (Block.encode l blk b.conf.compression)
      ok (
        buf,
        record b {
          block_builder = Block.new_builder b.conf.block_size;
          block_metas =
              b.block_metas ++ record { offset = b.current_len; first_key = blk.first_key } ∷ [];
        },
      )

    -- The block is full: it is finished, and the row goes to a new one.
    unfoldable pub add_to_new : Builder d → Bytes → Value → Result (SstError PartError) (Builder d)
    add_to_new b key v = do
      (buf, c) ← finish_block b
      (bb, took) ← widen (Block.add c.block_builder key (plain_row v))
      if took
          then ok (record c {
            block_builder = bb;
            current_len = (c.current_len + length buf) % 2 ^ 64;
            blocks = d.push_back c.blocks buf;
          })
          else panic

    unfoldable pub add_row : Builder d → Bytes → Value → Result (SstError PartError) (Builder d)
    add_row b key v = do
      (bb, took) ← widen (Block.add b.block_builder key (plain_row v))
      if took then ok (record b { block_builder = bb }) else add_to_new b key v

    -- Add
    unfoldable pub add : Builder d → Bytes → Value → Result (SstError PartError) (Builder d)
    add b key v = do
      c ← add_row (record b { num_keys = (b.num_keys + 1) % 2 ^ 32 }) key v
      ok (record c {
        first_key = clone_first c.first_key key;
        filter_builder = Bloom.add c.filter_builder key;
      })

    -- A value of length 0 is taken for a tombstone.
    pub add_value : Builder d → Bytes → Bytes → Result (SstError PartError) (Builder d)
    add_value b key value =
        if length value == 0
        then add b key tombstone
        else add b key (record { value = value; kind = kind_key_value })

    -- The filter and its bytes, if there are enough keys.
    unfoldable pub build_filter :
        (ℕ → ℕ) → Builder d → Result (SstError PartError) (Option Filter × Bytes)
    build_filter probes b =
        if leb b.conf.min_filter_keys b.num_keys
        then (do
          f ← widen (Bloom.build probes b.filter_builder)
          out ← lift_filter (Bloom.Codec.encode l f b.conf.compression)
          ok (some f, out))
        else ok (none, [])

    -- Build
    unfoldable pub build :
        FlatBuffers → (ℕ → ℕ) → Builder d → Result (SstError PartError) (SsTable d)
    build fb probes b = do
      (blk, b) ← finish_block b
      (bloom, filter) ← build_filter probes b
      index ← encode_index l fb b.block_metas b.conf.compression
      let info = info_of b blk filter index
      let front = (blk ++ filter) ++ index
      ok (record {
        info = info;
        bloom = bloom;
        blocks = d.push_back b.blocks (front ++ footer fb b front info);
      })
