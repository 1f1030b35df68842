-- ===== src/Compress.antt =====
-- internal/compress/compression.go. The compressors are packages outside the repository: they are
-- the parameter `Library`, with what the code relies on in `IsLossless`.
use slatedb_go.Prelude.{ℕ, ◌≡◌, refl}
use slatedb_go.Prelude.Bytes.{Bytes}
use slatedb_go.Prelude.Result.{Result, ok, err, panic}

-- Codec is an int8; `other` is any value that has no constant.
pub data Codec : Type 0 where
  uncompressed snappy zlib lz4 zstd : Codec
  other : ℕ → Codec

-- flatbuf.CompressionCodec, the same five values under generated names.
pub data FlatCodec : Type 0 where
  flat_none flat_snappy flat_zlib flat_lz4 flat_zstd : FlatCodec
  flat_other : ℕ → FlatCodec

pub codec_from_flat_buf : FlatCodec → Result ⊥ Codec
codec_from_flat_buf flat_none = ok uncompressed
codec_from_flat_buf flat_snappy = ok snappy
codec_from_flat_buf flat_zlib = ok zlib
codec_from_flat_buf flat_lz4 = ok lz4
codec_from_flat_buf flat_zstd = ok zstd
codec_from_flat_buf (flat_other n) = panic

pub codec_to_flat_buf : Codec → Result ⊥ FlatCodec
codec_to_flat_buf uncompressed = ok flat_none
codec_to_flat_buf snappy = ok flat_snappy
codec_to_flat_buf zlib = ok flat_zlib
codec_to_flat_buf lz4 = ok flat_lz4
codec_to_flat_buf zstd = ok flat_zstd
codec_to_flat_buf (other n) = panic

-- An error of a compressor, or ErrInvalidCodec.
pub data CompressError : Type 0 where
  corrupt invalid_codec : CompressError

-- What snappy, zlib, lz4 and zstd do to a whole buffer.
pub record Library : Type 0 where
  pub snappy_encode : Bytes → Bytes
  pub snappy_decode : Bytes → Result CompressError Bytes
  pub zlib_write : Bytes → Result CompressError Bytes
  pub zlib_read : Bytes → Result CompressError Bytes
  pub lz4_write : Bytes → Result CompressError Bytes
  pub lz4_read : Bytes → Result CompressError Bytes
  pub zstd_write : Bytes → Result CompressError Bytes
  pub zstd_read : Bytes → Result CompressError Bytes

-- What a compressor wrote, it reads back.
pub record IsLossless (l : Library) : Type 0 where
  pub snappy_back : (b : Bytes) → l.snappy_decode (l.snappy_encode b) ≡ ok b
  pub zlib_back : (b c : Bytes) → l.zlib_write b ≡ ok c → l.zlib_read c ≡ ok b
  pub lz4_back : (b c : Bytes) → l.lz4_write b ≡ ok c → l.lz4_read c ≡ ok b
  pub zstd_back : (b c : Bytes) → l.zstd_write b ≡ ok c → l.zstd_read c ≡ ok b

module _ (l : Library) where
  unfoldable pub encode : Bytes → Codec → Result CompressError Bytes
  encode buf uncompressed = ok buf
  encode buf snappy = ok (l.snappy_encode buf)
  encode buf zlib = l.zlib_write buf
  encode buf lz4 = l.lz4_write buf
  encode buf zstd = l.zstd_write buf
  encode buf (other n) = err invalid_codec

  unfoldable pub decode : Bytes → Codec → Result CompressError Bytes
  decode buf uncompressed = ok buf
  decode buf snappy = l.snappy_decode buf
  decode buf zlib = l.zlib_read buf
  decode buf lz4 = l.lz4_read buf
  decode buf zstd = l.zstd_read buf
  decode buf (other n) = err invalid_codec

  -- With lossless compressors, whatever the codec, what `Encode` returned is decoded to the buffer.
  pub decode-encode :
      (lossless : IsLossless l) (buf out : Bytes) (codec : Codec)
      → encode buf codec ≡ ok out
      → decode out codec ≡ ok buf
  unfolding encode decode
  decode-encode lossless buf out uncompressed h = cc
  decode-encode lossless buf out snappy h = cc (lossless.snappy_back buf)
  decode-encode lossless buf out zlib h = lossless.zlib_back buf out h
  decode-encode lossless buf out lz4 h = lossless.lz4_back buf out h
  decode-encode lossless buf out zstd h = lossless.zstd_back buf out h
  decode-encode lossless buf out (other n) h = cc

-- A library that copies, to show that the assumptions can be met.
abbrev pub copying : Library
copying = record {
  snappy_encode = λ b. b;
  snappy_decode = λ b. ok b;
  zlib_write = λ b. ok b;
  zlib_read = λ b. ok b;
  lz4_write = λ b. ok b;
  lz4_read = λ b. ok b;
  zstd_write = λ b. ok b;
  zstd_read = λ b. ok b;
}

pub copying-IsLossless : IsLossless copying
copying-IsLossless = record {
  snappy_back = λ b. refl;
  zlib_back = λ b c h. cc;
  lz4_back = λ b c h. cc;
  zstd_back = λ b c h. cc;
}
