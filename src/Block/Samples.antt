-- ===== src/Block/Samples.antt =====
-- Runs of the block builder and of the codec, and their theorems at concrete blocks.
use slatedb_go.Prelude.{
  ◌≡◌, ◌≢◌, ◌≤◌, ◌<◌, refl, arith, true, false, some, List, [], ◌∷◌, ◌++◌, length, map, All, ◌⊎◌,
}
use slatedb_go.Prelude.Bytes.{Bytes}
use slatedb_go.Prelude.Result.{ok}
use slatedb_go.BigEndian.{be_bytes}
use slatedb_go.Types.{is_tombstone, tombstone}
use slatedb_go.Crc.{checksum_ieee}
use slatedb_go.Compress
use slatedb_go.Compress.{zlib, copying, copying-IsLossless}
use slatedb_go.Row
use slatedb_go.Row.{Row, nanosecond, has_time, v0_flags, encode_time, encode_value, v0_size}
use slatedb_go.Row.Prefix.{compute_prefix_len}
use slatedb_go.Block.{
  Block, Builder, new_builder, add, build, plain_row, clone_first, cur_block_size, is_empty, plain,
  encode_offsets, encode, decode, lift_compress,
}
use slatedb_go.Block.Layout.{Entry, added, add_lem}
use slatedb_go.Block.RoundTrip.{IsLaid, decode-encode_laid}
use slatedb_go.Block.Iterator.{new_iterator, collect}
use slatedb_go.Block.Iterator.Drain.{IsEntry, row_entry}
use slatedb_go.Block.Stored.{add_all, collect-add_all, collect-decode-encode}

abbrev first : Entry
first = (1 ∷ 2 ∷ [], plain_row (record { value = 7 ∷ []; kind = 0 }))

abbrev rest : List Entry
rest = (1 ∷ 3 ∷ [], plain_row tombstone) ∷ []

abbrev sample : Builder
sample = record {
  offsets = 0 ∷ 20 ∷ [];
  rows =
      0 ∷ 0 ∷ 0 ∷ 2 ∷ 1 ∷ 2 ∷ 0 ∷ 0 ∷ 0 ∷ 0 ∷ 0 ∷ 0 ∷ 0 ∷ 0 ∷ 0 ∷ 0 ∷ 0 ∷ 0 ∷ 1 ∷ 7 ∷ 0 ∷ 1 ∷ 0 ∷ 1
      ∷ 3 ∷ 0 ∷ 0 ∷ 0 ∷ 0 ∷ 0 ∷ 0 ∷ 0 ∷ 0 ∷ 1 ∷ [];
  block_size = 60;
  first_key = some (1 ∷ 2 ∷ []);
}

abbrev block : Block
block = record { first_key = 1 ∷ 2 ∷ []; rows = sample.rows; offsets = sample.offsets }

added_both : add_all (new_builder 60) (first ∷ rest) ≡ ok (sample, true)
unfolding add_all add new_builder cur_block_size is_empty clone_first compute_prefix_len v0_size
    Row.encode encode_time encode_value v0_flags has_time nanosecond is_tombstone be_bytes
added_both = refl

built : build sample ≡ ok block
unfolding build is_empty
built = refl

-- A third row would not fit.
refused : add sample (1 ∷ 4 ∷ []) (first.1) ≡ ok (sample, false)
unfolding add cur_block_size is_empty compute_prefix_len v0_size has_time nanosecond is_tombstone
refused = refl

entries : All IsEntry (first ∷ rest)
entries = omega arith

collect-add_all_example : collect 3 (new_iterator block) ≡ ok (map row_entry (first ∷ rest))
collect-add_all_example =
    collect-add_all 60 first rest sample block (omega arith) entries added_both built

abbrev coded : Bytes
coded = plain block ++ be_bytes 4 (checksum_ieee (plain block))

encoded : encode copying block zlib ≡ ok coded
unfolding encode lift_compress Compress.encode
encoded = refl

coded_long : 6 ≤ length coded
unfolding plain encode_offsets be_bytes
coded_long = omega arith

collect-decode-encode_example :
    (back : Block) × (decode copying [] coded zlib ≡ ok back)
    × (collect 3 (new_iterator back) ≡ ok (map row_entry (first ∷ rest)))
collect-decode-encode_example =
    collect-decode-encode copying copying-IsLossless zlib [] coded 60 first rest sample block
      (omega arith) entries added_both built encoded coded_long

laid : IsLaid block
unfolding be_bytes
laid = record {
  bounds = omega arith;
  count = omega arith;
  os = 20 ∷ [];
  first = refl;
  more =
      (0 ∷ 2 ∷ 1 ∷ 2 ∷ 0 ∷ 0 ∷ 0 ∷ 0 ∷ 0 ∷ 0 ∷ 0 ∷ 0 ∷ 0 ∷ 0 ∷ 0 ∷ 0 ∷ 1 ∷ 7 ∷ 0 ∷ 1 ∷ 0 ∷ 1 ∷ 3 ∷ 0
        ∷ 0 ∷ 0 ∷ 0 ∷ 0 ∷ 0 ∷ 0 ∷ 0 ∷ 1 ∷ []);
  front = refl;
}

decode-encode_laid_example : decode copying [] coded zlib ≡ ok (record block { first_key = [] })
decode-encode_laid_example =
    decode-encode_laid copying copying-IsLossless block [] coded zlib laid coded_long encoded

add_lem_example :
    (◌≢◌ {A = Bytes} (1 ∷ 4 ∷ []) [])
    × ((false ≡ false)
        → (sample ≡ sample)
          × (sample.offsets ≢ [])
          × (60 < cur_block_size (added sample (1 ∷ 4 ∷ []) first.1)))
    × ((false ≡ true)
        → (sample ≡ added sample (1 ∷ 4 ∷ []) first.1)
          × ((sample.offsets ≡ []) ⊎ (cur_block_size (added sample (1 ∷ 4 ∷ []) first.1) ≤ 60)))
add_lem_example = add_lem sample (1 ∷ 4 ∷ []) first.1 sample false refused
