-- ===== src/Sst/Index/Plain.antt =====
-- A plain byte form of the index and of the metadata of a table, for the concrete cases.
use slatedb_go.Prelude.{
  ℕ, zero, suc, ◌≡◌, refl, arith, List, [], ◌∷◌, ◌++◌, length, take, drop, take-append, drop-append,
  ◌==◌, if◌then◌else◌,
}
use slatedb_go.Prelude.Bytes.{Bytes}
use slatedb_go.Compress.{Codec, uncompressed, snappy, zlib, lz4, zstd, other}
use slatedb_go.Sst.{Info}
use slatedb_go.Sst.FirstBlock.{BlockMeta}
use slatedb_go.Sst.Index.{FlatBuffers, IsReadBack, IsInfo, IsKnown}

unfoldable pub plain_metas : List BlockMeta → Bytes
plain_metas [] = []
plain_metas (m ∷ l) = m.offset ∷ length m.first_key ∷ m.first_key ++ plain_metas l

unfoldable pub read_metas : ℕ → Bytes → List BlockMeta
read_metas zero b = []
read_metas (suc n) [] = []
read_metas (suc n) (o ∷ []) = []
read_metas (suc n) (o ∷ k ∷ b) =
    record { offset = o; first_key = take k b } ∷ read_metas n (drop k b)

read_metas-plain_metas : (l : List BlockMeta) → read_metas (length l) (plain_metas l) ≡ l
unfolding read_metas plain_metas
read_metas-plain_metas [] = refl
read_metas-plain_metas (m ∷ l) =
    rw (take-append (length m.first_key) m.first_key (plain_metas l) refl) (
      rw (drop-append (length m.first_key) m.first_key (plain_metas l) refl)
        (rw (read_metas-plain_metas l) refl))

abbrev read_counted : Bytes → List BlockMeta
read_counted [] = []
read_counted (n ∷ b) = read_metas n b

abbrev pub number : Codec → ℕ
number uncompressed = 0
number snappy = 1
number zlib = 2
number lz4 = 3
number zstd = 4
number (other n) = n

abbrev codec_of : ℕ → Codec
codec_of n =
    if n == 0
    then uncompressed
    else if n == 1
    then snappy
    else if n == 2
    then zlib
    else if n == 3
    then lz4
    else zstd

codec_of-number : (c : Codec) → IsKnown c → codec_of (number c) ≡ c
codec_of-number uncompressed k = refl
codec_of-number snappy k = refl
codec_of-number zlib k = refl
codec_of-number lz4 k = refl
codec_of-number zstd k = refl
codec_of-number (other n) k = absurd k

abbrev no_info : Info
no_info = record {
  first_key = [];
  index_offset = 0;
  index_len = 0;
  filter_offset = 0;
  filter_len = 0;
  compression_codec = uncompressed;
}

unfoldable pub plain_info : Info → Bytes
plain_info i =
    number i.compression_codec
    ∷ i.index_offset
    ∷ i.index_len
    ∷ i.filter_offset
    ∷ i.filter_len
    ∷ length i.first_key
    ∷ i.first_key

unfoldable pub read_plain : Bytes → Info
read_plain (c ∷ io ∷ il ∷ fo ∷ fl ∷ k ∷ b) = record {
  first_key = take k b;
  index_offset = io;
  index_len = il;
  filter_offset = fo;
  filter_len = fl;
  compression_codec = codec_of c;
}
read_plain b = no_info

read_plain-plain_info : (i : Info) (rest : Bytes) → IsInfo i → read_plain (plain_info i ++ rest) ≡ i
unfolding read_plain plain_info
read_plain-plain_info i rest fits =
    rw (take-append (length i.first_key) i.first_key rest refl)
      (rw (codec_of-number i.compression_codec fits.codec) refl)

abbrev pub plain_buffers : FlatBuffers
plain_buffers = record {
  index_bytes = λ l. length l ∷ plain_metas l;
  block_metas = read_counted;
  info_bytes = plain_info;
  info_at = read_plain;
}

pub plain_buffers-IsReadBack : IsReadBack plain_buffers
unfolding plain_info
plain_buffers-IsReadBack = record {
  block_metas-index_bytes = λ l fits. read_metas-plain_metas l;
  info_at-info_bytes = read_plain-plain_info;
  not_empty = λ i. omega arith;
}
