-- ===== src/Sst/Blocks/Samples.antt =====
-- A table of two rows in two blocks, from the builder to its blocks.
use slatedb_go.Prelude.{ℕ, ◌^◌, ◌<◌, ◌≡◌, refl, subst, ◌≤◌, arith, List, All, map, [], ◌∷◌, length}
use slatedb_go.Prelude.Bytes.{Bytes}
use slatedb_go.Prelude.Result.{ok}
use slatedb_go.Compress.{
  Codec, uncompressed, snappy, zlib, lz4, zstd, other, copying, copying-IsLossless,
}
use slatedb_go.State.Listed.{listed_deques, listed_deques-IsDeque}
use slatedb_go.Crc.{checksum_ieee}
use slatedb_go.Compress
use slatedb_go.BigEndian.{be_bytes}
use slatedb_go.Types.{Value, is_tombstone, tombstone}
use slatedb_go.Row
use slatedb_go.Row.{nanosecond, has_time, v0_flags, encode_time, encode_value, v0_size}
use slatedb_go.Row.Prefix.{compute_prefix_len}
use slatedb_go.Block
use slatedb_go.Block.{cur_block_size, is_empty, clone_first}
use slatedb_go.Bloom
use slatedb_go.Bloom.Bits
use slatedb_go.Bloom.Codec
use slatedb_go.Sst.Index.{Index, block_meta, encode_index, encode_info, lift_compress}
use slatedb_go.Sst.Index.Plain.{plain_buffers, plain_buffers-IsReadBack, plain_metas, plain_info}
use slatedb_go.Sst.Read.{bytes_blob, bytes_blob-Has, read_info, read_index}
use slatedb_go.Sst.Build.{
  Config, Builder, SsTable, new_builder, add, add_row, add_to_new, build, finish_block,
  encode_table, lift_block, lift_filter, build_filter, concat, info_of, footer,
}
use slatedb_go.Block.Layout.{Entry}
use slatedb_go.Block.Iterator.Drain.{IsEntry}
use slatedb_go.Sst.Build.Stored.{all_rows}
use slatedb_go.Sst.Build.Kept.{plain_entry}
use slatedb_go.Sst.Build.Added.{add_rows}
use slatedb_go.Sst.Blocks.Decoded.{IsLong}
use slatedb_go.Sst.Blocks.Rows.{Each, BlockReads, build-rows}

abbrev pub conf : Config
conf = record { block_size = 30; min_filter_keys = 3; filter_bits_per_key = 10; compression = zlib }

abbrev pub rows : List (Bytes × Value)
rows = (5 ∷ [], record { value = 7 ∷ []; kind = 0 }) ∷ (6 ∷ [], tombstone) ∷ []

abbrev pub no_probes : ℕ → ℕ
no_probes n = 0

-- What the additions leave.
unfoldable pub two_rows :
    (b : Builder listed_deques) × (add_rows listed_deques copying
        (new_builder listed_deques conf)
        rows
      ≡ ok b)
unfolding add_rows new_builder add add_row add_to_new Block.new_builder Block.add cur_block_size
    is_empty clone_first compute_prefix_len v0_size Row.encode encode_time encode_value v0_flags
    has_time nanosecond is_tombstone be_bytes finish_block lift_block Block.build Block.encode
    Block.lift_compress Compress.encode checksum_ieee Block.plain Block.encode_offsets Bloom.add
    Bloom.new_builder
two_rows = (_, refl)

-- What Build gives.
unfoldable pub built :
    (t : SsTable listed_deques) × (build listed_deques copying plain_buffers no_probes two_rows.0
      ≡ ok t)
unfolding two_rows build finish_block is_empty lift_block lift_filter Block.build Block.encode
    Block.lift_compress Compress.encode build_filter Bloom.build Bloom.set_keys Bloom.probes_for_key
    Bloom.probes_loop Bloom.set_all Bloom.set_bit Bloom.filter_bytes Bloom.zeros Bloom.add
    Bloom.new_builder Bloom.filter_hash Bloom.hash_loop Bits.update Bits.set Bits.test
    Bloom.Codec.encode Bloom.Codec.lift encode_index lift_compress checksum_ieee be_bytes
    Block.plain Block.encode_offsets plain_metas
built = (_, refl)

abbrev pub object : Bytes
object = encode_table listed_deques built.0

pub sizes :
    (two_rows.0.conf.block_size < 2 ^ 16) × (length object < 2 ^ 32) × (4 < built.0.info.index_len)
unfolding two_rows built build encode_table concat info_of footer encode_info plain_info
    finish_block is_empty lift_block lift_filter Block.build Block.encode Block.lift_compress
    Compress.encode build_filter Bloom.build Bloom.set_keys Bloom.probes_for_key Bloom.probes_loop
    Bloom.set_all Bloom.set_bit Bloom.filter_bytes Bloom.zeros Bloom.add Bloom.new_builder
    Bloom.filter_hash Bloom.hash_loop Bits.update Bits.set Bits.test Bloom.Codec.encode
    Bloom.Codec.lift encode_index lift_compress checksum_ieee be_bytes Block.plain
    Block.encode_offsets plain_metas
sizes = (ground arith, ground arith, ground arith)

pub copying-IsLong : IsLong copying
unfolding Compress.encode
copying-IsLong uncompressed b c size done =
    let same : b ≡ c = cc in subst (λ x. 2 ≤ length x) same size
copying-IsLong snappy b c size done = let same : b ≡ c = cc in subst (λ x. 2 ≤ length x) same size
copying-IsLong zlib b c size done = let same : b ≡ c = cc in subst (λ x. 2 ≤ length x) same size
copying-IsLong lz4 b c size done = let same : b ≡ c = cc in subst (λ x. 2 ≤ length x) same size
copying-IsLong zstd b c size done = let same : b ≡ c = cc in subst (λ x. 2 ≤ length x) same size
copying-IsLong (other n) b c size done = cc

pub entries : All IsEntry (map plain_entry rows)
entries = omega arith

build-rows_example :
    (x : Index) × (parts : List (List Entry)) × (read_info plain_buffers (bytes_blob object)
      ≡ ok built.0.info)
    × (read_index copying built.0.info (bytes_blob object) ≡ ok x)
    × (length parts ≡ length (block_meta plain_buffers x))
    × (all_rows parts ≡ map plain_entry rows)
    × Each
        (BlockReads copying
          (λ i. [])
          []
          built.0.info
          (block_meta plain_buffers x)
          (bytes_blob object))
        0
        parts
build-rows_example =
    build-rows listed_deques listed_deques-IsDeque copying copying-IsLossless copying-IsLong
      plain_buffers plain_buffers-IsReadBack no_probes (λ n. ground arith) (λ i. []) []
      (bytes_blob object) conf rows two_rows.0 built.0 two_rows.1 built.1 sizes.0 entries
      (bytes_blob-Has object) sizes.1 sizes.2
