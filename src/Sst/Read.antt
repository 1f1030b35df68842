-- ===== src/Sst/Read.antt =====
-- internal/sstable/decode.go: what is read of a table in the object store; and the object made of a
-- byte slice of internal/sstable/blob.go.
use slatedb_go.Prelude.{
  ℕ, ◌+◌, ◌-◌, ◌%◌, ◌^◌, ◌≤◌, ◌≡◌, refl, arith, false, ◌||◌, Option, none, some, length, take, drop,
  ltb, leb, if◌then◌else◌,
}
use slatedb_go.Prelude.Bytes.{Bytes}
use slatedb_go.Prelude.Result.{Result, ok, err, ◌>>=◌}
use slatedb_go.BigEndian.{read_be}
use slatedb_go.Compress.{Library}
use slatedb_go.Bloom.{Filter}
use slatedb_go.Bloom
use slatedb_go.Sst.{Info}
use slatedb_go.Sst.Index.{
  FlatBuffers, SstError, table_too_short, store_error, Index, decode_info, decode_index,
}
use slatedb_go.Sst.Build.{PartError, lift_filter}

abbrev pub ReadError : Type 0
ReadError = SstError PartError

-- ReadOnlyBlob: an object, and a range of its bytes from `start` to before `end`.
pub record Blob : Type 0 where
  pub len : Result ReadError ℕ
  pub read_range : ℕ → ℕ → Result ReadError Bytes

-- The object has these bytes, and can be read.
pub record Has (o : Blob) (bytes : Bytes) : Type 0 where
  pub len_is : o.len ≡ ok (length bytes)
  pub range_is :
      (start end : ℕ)
      → start ≤ end
      → end ≤ length bytes
      → o.read_range start end ≡ ok (take (end - start) (drop start bytes))

-- NewBytesBlob
pub range_of : Bytes → ℕ → ℕ → Result ReadError Bytes
range_of bytes start end =
    if ltb (length bytes) start || ltb (length bytes) end || ltb end start
    then err (store_error 0)
    else ok (take (end - start) (drop start bytes))

abbrev pub bytes_blob : Bytes → Blob
bytes_blob bytes = record { len = ok (length bytes); read_range = range_of bytes }

pub bytes_blob-Has : (bytes : Bytes) → Has (bytes_blob bytes) bytes
unfolding range_of
bytes_blob-Has bytes = record {
  len_is = refl;
  range_is = λ start end le fits.
      let after : ltb (length bytes) start ≡ false = ground arith in
      let behind : ltb (length bytes) end ≡ false = ground arith in
      let turned : ltb end start ≡ false = ground arith in rw (after, behind, turned) refl;
}

-- The last four bytes are the offset of the metadata.
unfoldable pub read_info : FlatBuffers → Blob → Result ReadError Info
read_info fb o = do
  size ← o.len
  if leb size 4 then err table_too_short else do
    at ← o.read_range (size - 4) size
    (offset, _) ← read_be 4 at
    bytes ← o.read_range offset (size - 4)
    decode_info fb bytes

module _ (l : Library) where
  unfoldable pub read_filter : Info → Blob → Result ReadError (Option Filter)
  read_filter info o = if ltb info.filter_len 1 then ok none else do
    bytes ← o.read_range info.filter_offset ((info.filter_offset + info.filter_len) % 2 ^ 64)
    f ← lift_filter (Bloom.Codec.decode l bytes info.compression_codec)
    ok (some f)

  unfoldable pub read_index : Info → Blob → Result ReadError Index
  read_index info o = do
    bytes ← o.read_range info.index_offset ((info.index_offset + info.index_len) % 2 ^ 64)
    decode_index l bytes info.compression_codec
