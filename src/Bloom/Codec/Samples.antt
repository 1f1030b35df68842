-- ===== src/Bloom/Codec/Samples.antt =====
-- The round trip of a filter, with compressors that copy.
use slatedb_go.Prelude.{◌≡◌, refl, arith, [], ◌∷◌, ◌++◌}
use slatedb_go.Prelude.Bytes.{Bytes}
use slatedb_go.Prelude.Result.{ok}
use slatedb_go.BigEndian.{be_bytes}
use slatedb_go.Compress
use slatedb_go.Compress.{zlib, copying, copying-IsLossless}
use slatedb_go.Crc.{checksum_ieee}
use slatedb_go.Bloom.{Filter}
use slatedb_go.Bloom.Codec.{encode, decode, lift, decode-encode_filter}

abbrev filter : Filter
filter = record { num_probes = 6; data_bytes = 1 ∷ 128 ∷ [] }

abbrev coded : Bytes
coded =
    let plain = be_bytes 2 filter.num_probes ++ filter.data_bytes in
    plain ++ be_bytes 4 (checksum_ieee plain)

encoded : encode copying filter zlib ≡ ok coded
unfolding encode lift Compress.encode
encoded = refl

decode-encode_filter_example : decode copying coded zlib ≡ ok filter
decode-encode_filter_example =
    decode-encode_filter copying copying-IsLossless filter coded zlib (omega arith) encoded
