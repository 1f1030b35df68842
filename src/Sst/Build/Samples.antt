-- ===== src/Sst/Build/Samples.antt =====
-- A table of one row, built and read.
use slatedb_go.Prelude.{ℕ, ◌^◌, ◌<◌, ◌≡◌, refl, arith, some, [], ◌∷◌, length}
use slatedb_go.Prelude.Bytes.{Bytes}
use slatedb_go.Prelude.Result.{ok}
use slatedb_go.Compress.{
  Codec, uncompressed, snappy, zlib, lz4, zstd, other, copying, copying-IsLossless,
}
use slatedb_go.State.Listed.{listed_deques, listed_deques-IsDeque}
use slatedb_go.Crc.{checksum_ieee}
use slatedb_go.Compress
use slatedb_go.BigEndian.{be_bytes}
use slatedb_go.Types.{Value, is_tombstone}
use slatedb_go.Row
use slatedb_go.Row.{nanosecond, has_time, v0_flags, encode_time, encode_value, v0_size}
use slatedb_go.Row.Prefix.{compute_prefix_len}
use slatedb_go.Block
use slatedb_go.Block.{cur_block_size, is_empty, clone_first}
use slatedb_go.Bloom
use slatedb_go.Bloom.Bits
use slatedb_go.Bloom.Codec
use slatedb_go.Sst.Index.{Index, block_meta, encode_index, encode_info, lift_compress}
use slatedb_go.Sst.Index.Plain.{plain_buffers, plain_buffers-IsReadBack, plain_metas, plain_info}
use slatedb_go.Sst.Read.{bytes_blob, bytes_blob-Has, read_info, read_filter, read_index}
use slatedb_go.Sst.Build.{
  Config, Builder, SsTable, new_builder, add, add_row, build, finish_block, encode_table,
  lift_block, lift_filter, build_filter, concat, info_of, footer,
}
use slatedb_go.Sst.Build.Laid.{IsLaid, new_builder-IsLaid, add-IsLaid}
use slatedb_go.Sst.Build.Readable.{build-read}

abbrev conf : Config
conf = record {
  block_size = 64;
  min_filter_keys = 1;
  filter_bits_per_key = 10;
  compression = uncompressed;
}

abbrev two_probes : ℕ → ℕ
two_probes n = 2

-- What a call gives that succeeds.
abbrev one_row : Builder listed_deques
one_row = record {
  block_builder = record {
    offsets = 0 ∷ [];
    rows = 0 ∷ 0 ∷ 0 ∷ 1 ∷ 5 ∷ 0 ∷ 0 ∷ 0 ∷ 0 ∷ 0 ∷ 0 ∷ 0 ∷ 0 ∷ 0 ∷ 0 ∷ 0 ∷ 0 ∷ 1 ∷ 7 ∷ [];
    block_size = 64;
    first_key = some (5 ∷ []);
  };
  filter_builder = Bloom.add (Bloom.new_builder 10) (5 ∷ []);
  block_metas = [];
  first_key = some (5 ∷ []);
  blocks = [];
  current_len = 0;
  num_keys = 1;
  conf = conf;
}

abbrev row : Value
row = record { value = 7 ∷ []; kind = 0 }

added_one : add listed_deques copying (new_builder listed_deques conf) (5 ∷ []) row ≡ ok one_row
unfolding new_builder add add_row Block.new_builder Block.add cur_block_size is_empty clone_first
    compute_prefix_len v0_size Row.encode encode_time encode_value v0_flags has_time nanosecond
    is_tombstone be_bytes
added_one = refl

add-IsLaid_example : IsLaid listed_deques [] one_row
add-IsLaid_example =
    add-IsLaid listed_deques copying listed_deques-IsDeque [] (new_builder listed_deques conf)
      one_row (5 ∷ []) row (new_builder-IsLaid listed_deques listed_deques-IsDeque conf) added_one

-- What Build gives: the row, the filter, the index and the metadata in one block.
built :
    (t : SsTable listed_deques) × (build listed_deques copying plain_buffers two_probes one_row
      ≡ ok t)
unfolding build finish_block is_empty lift_block lift_filter Block.build Block.encode
    Block.lift_compress Compress.encode build_filter Bloom.build Bloom.set_keys Bloom.probes_for_key
    Bloom.probes_loop Bloom.set_all Bloom.set_bit Bloom.filter_bytes Bloom.zeros Bloom.add
    Bloom.new_builder Bloom.filter_hash Bloom.hash_loop Bits.update Bits.set Bits.test
    Bloom.Codec.encode Bloom.Codec.lift encode_index lift_compress checksum_ieee be_bytes
    Block.plain Block.encode_offsets plain_metas
built = (_, refl)

abbrev object : Bytes
object = encode_table listed_deques built.0

sizes : (length object < 2 ^ 32) × (4 < built.0.info.index_len)
unfolding built build encode_table concat info_of footer encode_info plain_info finish_block
    is_empty lift_block lift_filter Block.build Block.encode Block.lift_compress Compress.encode
    build_filter Bloom.build Bloom.set_keys Bloom.probes_for_key Bloom.probes_loop Bloom.set_all
    Bloom.set_bit Bloom.filter_bytes Bloom.zeros Bloom.add Bloom.new_builder Bloom.filter_hash
    Bloom.hash_loop Bits.update Bits.set Bits.test Bloom.Codec.encode Bloom.Codec.lift encode_index
    lift_compress checksum_ieee be_bytes Block.plain Block.encode_offsets plain_metas
sizes = (ground arith, ground arith)

build-read_example :
    (blk : Bytes) × (c : Builder listed_deques) × (finish_block listed_deques copying one_row
      ≡ ok (blk, c))
    × (read_info plain_buffers (bytes_blob object) ≡ ok built.0.info)
    × (read_filter copying built.0.info (bytes_blob object) ≡ ok built.0.bloom)
    × ((x : Index) × (read_index copying built.0.info (bytes_blob object) ≡ ok x)
        × (block_meta plain_buffers x ≡ c.block_metas))
build-read_example =
    build-read listed_deques copying plain_buffers plain_buffers-IsReadBack copying-IsLossless
      listed_deques-IsDeque two_probes (λ n. ground arith) (bytes_blob object) [] one_row built.0
      add-IsLaid_example built.1 (bytes_blob-Has object) sizes.0 sizes.1
