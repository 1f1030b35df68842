-- ===== src/Sst/Index.antt =====
-- internal/sstable/flatbuf.go: the byte forms of the index and of the metadata of a table. The code
-- that the flatbuffers compiler generates, with its library, is the parameter `FlatBuffers`.
pub mod Plain
use slatedb_go.Prelude.{
  ℕ, ◌-◌, ◌^◌, ◌<◌, ◌≤◌, ◌≡◌, refl, ap, subst, arith, tt, false, not, List, ◌++◌, All, length, take,
  drop, leb, ◌==◌, ==-refl, if◌then◌else◌,
}
use slatedb_go.Prelude.Bytes.{Bytes}
use slatedb_go.Prelude.Result.{Result, ok, err, panic, ◌>>=◌}
use slatedb_go.BigEndian.{be_bytes, read_be}
use slatedb_go.Compress
use slatedb_go.Compress.{
  Codec, uncompressed, snappy, zlib, lz4, zstd, other, CompressError, Library, IsLossless,
}
use slatedb_go.Crc.{checksum_ieee, framed_lem}
use slatedb_go.Sst.{Info}
use slatedb_go.Sst.FirstBlock.{BlockMeta}

-- The byte forms of an index and of the metadata, and what is read of them. The metadata is read from
-- a slice that goes on behind it.
pub record FlatBuffers : Type 0 where
  pub index_bytes : List BlockMeta → Bytes
  pub block_metas : Bytes → List BlockMeta
  pub info_bytes : Info → Bytes
  pub info_at : Bytes → Info

-- A codec that Encode takes; the others have no name in the format.
abbrev pub IsKnown : Codec → Type 0
IsKnown uncompressed = Unit
IsKnown snappy = Unit
IsKnown zlib = Unit
IsKnown lz4 = Unit
IsKnown zstd = Unit
IsKnown (other n) = ⊥

abbrev pub IsMeta : BlockMeta → Type 0
IsMeta m = m.offset < 2 ^ 64

-- The fields fit the format.
pub record IsInfo (i : Info) : Type 0 where
  pub index_offset : i.index_offset < 2 ^ 64
  pub index_len : i.index_len < 2 ^ 64
  pub filter_offset : i.filter_offset < 2 ^ 64
  pub filter_len : i.filter_len < 2 ^ 64
  pub codec : IsKnown i.compression_codec

-- What was written is read back, and is not empty.
pub record IsReadBack (fb : FlatBuffers) : Type 0 where
  pub block_metas-index_bytes :
      (l : List BlockMeta) → All IsMeta l → fb.block_metas (fb.index_bytes l) ≡ l
  pub info_at-info_bytes :
      (i : Info) (rest : Bytes) → IsInfo i → fb.info_at (fb.info_bytes i ++ rest) ≡ i
  pub not_empty : (i : Info) → 0 < length (fb.info_bytes i)

-- The texts behind "corrupted index", "corrupted info" and "corrupted SSTable", a range of blocks
-- that is not there, an error of a part, and what the object store returns.
pub data SstError (P : Type 0) : Type 0 where
  index_too_short index_checksum info_too_short info_checksum table_too_short : SstError P
  empty_range range_too_large : SstError P
  compression : CompressError → SstError P
  part : P → SstError P
  store_error : ℕ → SstError P

unfoldable pub lift_compress {ℓ} :
    {P : Type 0} {T : Type ℓ} → Result CompressError T → Result (SstError P) T
lift_compress (ok t) = ok t
lift_compress (err e) = err (compression e)
lift_compress panic = panic

-- The field `Data`.
pub record Index : Type 0 where
  pub bytes : Bytes

module _ (fb : FlatBuffers) where
  -- The slice that is read has the checksum behind the metadata.
  unfoldable pub encode_info : Info → Bytes
  encode_info i = fb.info_bytes i ++ be_bytes 4 (checksum_ieee (fb.info_bytes i))

  pub decode_info : {P : Type 0} → Bytes → Result (SstError P) Info
  decode_info b = if leb (length b) 4 then err info_too_short else do
    (sum, _) ← read_be 4 (drop (length b - 4) b)
    if not (sum == checksum_ieee (take (length b - 4) b))
        then err info_checksum
        else ok (fb.info_at b)

  -- Index.BlockMeta and its length; the source keeps the list once it is read.
  pub block_meta : Index → List BlockMeta
  block_meta x = fb.block_metas x.bytes

module _ (l : Library) where
  pub decode_index : {P : Type 0} → Bytes → Codec → Result (SstError P) Index
  decode_index b codec = if leb (length b) 4 then err index_too_short else do
    let compressed = take (length b - 4) b
    (sum, _) ← read_be 4 (drop (length b - 4) b)
    if not (sum == checksum_ieee compressed) then err index_checksum else do
      buf ← lift_compress (Compress.decode l compressed codec)
      ok (record { bytes = buf })

  unfoldable pub encode_index :
      {P : Type 0} → FlatBuffers → List BlockMeta → Codec → Result (SstError P) Bytes
  encode_index fb metas codec = do
    compressed ← lift_compress (Compress.encode l (fb.index_bytes metas) codec)
    ok (compressed ++ be_bytes 4 (checksum_ieee compressed))

-- The metadata that fits the format is decoded again.
pub decode_info-encode_info :
    (fb : FlatBuffers) (back : IsReadBack fb) {P : Type 0} (i : Info)
    → IsInfo i
    → decode_info fb {P = P} (encode_info fb i) ≡ ok i
unfolding decode_info encode_info
decode_info-encode_info fb back {P} i fits =
    let c = fb.info_bytes i in
    let (size, front, sum) = framed_lem {E = SstError P} c in
    let filled = back.not_empty i in
    let long : leb (length (c ++ be_bytes 4 (checksum_ieee c))) 4 ≡ false =
      ground (arith, size, filled) in
    rw long (
      rw sum (
        rw front (
          rw (==-refl (checksum_ieee c))
            (rw (back.info_at-info_bytes i (be_bytes 4 (checksum_ieee c)) fits) refl))))

pub encode_info-size : (fb : FlatBuffers) (i : Info) → 4 ≤ length (encode_info fb i)
unfolding encode_info
encode_info-size fb i =
    let (size, front, sum) = framed_lem {E = SstError ⊥} (fb.info_bytes i) in omega (arith, size)

encode-IsKnown :
    (l : Library) (buf c : Bytes) (codec : Codec)
    → Compress.encode l buf codec ≡ ok c
    → IsKnown codec
unfolding Compress.encode
encode-IsKnown l buf c uncompressed h = tt
encode-IsKnown l buf c snappy h = tt
encode-IsKnown l buf c zlib h = tt
encode-IsKnown l buf c lz4 h = tt
encode-IsKnown l buf c zstd h = tt
encode-IsKnown l buf c (other n) h = cc

framed :
    {P : Type 0} (m : Result CompressError Bytes) (f : Bytes → Bytes) (out : Bytes)
    → (lift_compress {P = P} m >>= λ c. ok (f c)) ≡ ok out
    → (c : Bytes) × (m ≡ ok c) × (f c ≡ out)
unfolding lift_compress
framed (ok c) f out h = (c, refl, cc)
framed (err e) f out h = cc
framed panic f out h = cc

-- With lossless compressors, the encoding of an index, if it is more than a checksum, is decoded to
-- the index, and the codec is one that has a name.
pub decode_index-encode_index :
    (l : Library) (lossless : IsLossless l) (fb : FlatBuffers) (back : IsReadBack fb) {P : Type 0}
    (metas : List BlockMeta) (codec : Codec) (out : Bytes)
    → All IsMeta metas
    → encode_index l {P = P} fb metas codec ≡ ok out
    → 4 < length out
    → IsKnown codec
      × ((x : Index) × (decode_index l {P = P} out codec ≡ ok x) × (block_meta fb x ≡ metas))
unfolding encode_index decode_index lift_compress block_meta
decode_index-encode_index l lossless fb back {P} metas codec out fits coded long =
    let (c, e, same) = framed (Compress.encode l (fb.index_bytes metas) codec) _ out coded in
    let (size, front, sum) = framed_lem {E = SstError P} c in
    let large : leb (length (c ++ be_bytes 4 (checksum_ieee c))) 4 ≡ false =
      ground (arith, ap length same, long) in
    let x : Index = record { bytes = fb.index_bytes metas } in
    let plain = Compress.decode-encode l lossless (fb.index_bytes metas) c codec e in
    let done : decode_index l {P = P} (c ++ be_bytes 4 (checksum_ieee c)) codec ≡ ok x =
      rw large (rw sum (rw front (rw (==-refl (checksum_ieee c)) (rw plain refl)))) in
    (
      encode-IsKnown l (fb.index_bytes metas) c codec e,
      (
        x,
        subst (λ o. decode_index l {P = P} o codec ≡ ok x) same done,
        back.block_metas-index_bytes metas fits,
      ),
    )
