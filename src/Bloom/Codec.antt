-- ===== src/Bloom/Codec.antt =====
-- Encode and Decode of internal/sstable/bloom/bloom.go.
mod Samples
use slatedb_go.Prelude.{
  ℕ, ◌+◌, ◌-◌, ◌^◌, ◌≤◌, ◌<◌, ◌≡◌, refl, arith, Bool, true, false, not, List, [], ◌∷◌, ◌++◌, length,
  take, drop, length-append, take-append, drop-append, ltb, ◌==◌, if◌then◌else◌, ◌∙◌,
}
use slatedb_go.Prelude.Bytes.{Bytes}
use slatedb_go.Prelude.Result.{Result, ok, err, panic, ◌>>=◌}
use slatedb_go.BigEndian.{
  be_bytes, read_be, length-be_bytes, read_be-be_bytes, read_be-be_bytes_end,
}
use slatedb_go.Compress
use slatedb_go.Compress.{CompressError, Codec, Library, IsLossless}
use slatedb_go.Crc.{checksum_ieee, checksum_ieee-lt}
use slatedb_go.Bloom.{Filter}

-- The texts behind "corrupt filter: ", and an error of the compressor.
pub data FilterError : Type 0 where
  too_small checksum_mismatch : FilterError
  compression : CompressError → FilterError

unfoldable pub lift {ℓ} : {A : Type ℓ} → Result CompressError A → Result FilterError A
lift (ok a) = ok a
lift (err e) = err (compression e)
lift panic = panic

-- `buf[2:]` panics on fewer than 2 bytes.
filter_of : Bytes → Result FilterError Filter
filter_of buf = do (n, rest) ← read_be 2 buf; ok (record { num_probes = n; data_bytes = rest })

module _ (l : Library) where
  unfoldable pub encode : Filter → Codec → Result FilterError Bytes
  encode f codec = do
    compressed ← lift (Compress.encode l (be_bytes 2 f.num_probes ++ f.data_bytes) codec)
    ok (compressed ++ be_bytes 4 (checksum_ieee compressed))

  -- The check is for 2 bytes, and the slice takes off 4.
  pub decode : Bytes → Codec → Result FilterError Filter
  decode input codec =
      if ltb (length input) 2 then err too_small else if ltb (length input) 4 then panic else do
        let compressed = take (length input - 4) input
        (sum, _) ← read_be 4 (drop (length input - 4) input)
        if not (sum == checksum_ieee compressed)
            then err checksum_mismatch
            else do buf ← lift (Compress.decode l compressed codec); filter_of buf

framed :
    (m : Result CompressError Bytes) (f : Bytes → Bytes) (out : Bytes)
    → (lift m >>= λ c. ok (f c)) ≡ ok out
    → (c : Bytes) × (m ≡ ok c) × (f c ≡ out)
unfolding lift
framed (ok c) f out h = (c, refl, cc)
framed (err e) f out h = cc
framed panic f out h = cc

checked :
    (l : Library) (c buf : Bytes) (codec : Codec)
    → Compress.decode l c codec ≡ ok buf
    → decode l (c ++ be_bytes 4 (checksum_ieee c)) codec ≡ filter_of buf
unfolding decode lift
checked l c buf codec h =
    let sum = be_bytes 4 (checksum_ieee c) in
    let size : length (c ++ sum) ≡ length c + 4 =
      omega (arith, length-append c sum, length-be_bytes 4 (checksum_ieee c)) in
    let long : ltb (length (c ++ sum)) 2 ≡ false = ground arith in
    let longer : ltb (length (c ++ sum)) 4 ≡ false = ground arith in
    let start : length (c ++ sum) - 4 ≡ length c = omega (arith, size) in
    let same : not (checksum_ieee c == checksum_ieee c) ≡ false = ground arith in
    rw (long, longer)
      (rw start (
        rw (take-append (length c) c sum refl, drop-append (length c) c sum refl)
          (rw (read_be-be_bytes_end 4 (checksum_ieee c) (checksum_ieee-lt c))
            (rw same (rw h refl)))))

filter_of-plain :
    (f : Filter)
    → f.num_probes < 2 ^ 16
    → filter_of (be_bytes 2 f.num_probes ++ f.data_bytes) ≡ ok f
unfolding filter_of
filter_of-plain f h = rw (read_be-be_bytes 2 f.num_probes f.data_bytes h) refl

-- With lossless compressors, whatever the codec, the encoding of a filter with fewer than 2 ^ 16 probes is
-- decoded to the filter.
pub decode-encode_filter :
    (l : Library) (lossless : IsLossless l) (f : Filter) (out : Bytes) (codec : Codec)
    → f.num_probes < 2 ^ 16
    → encode l f codec ≡ ok out
    → decode l out codec ≡ ok f
unfolding encode
decode-encode_filter l lossless f out codec small h =
    let plain = be_bytes 2 f.num_probes ++ f.data_bytes in
    let (c, e, same) = framed (Compress.encode l plain codec) _ out h in
    rw (← same) (
      checked l c plain codec (Compress.decode-encode l lossless plain c codec e)
      ∙ filter_of-plain f small)

-- The encoding ends in a checksum.
pub encode-size :
    (l : Library) (f : Filter) (out : Bytes) (codec : Codec)
    → encode l f codec ≡ ok out
    → 4 ≤ length out
unfolding encode
encode-size l f out codec h =
    let (c, e, same) =
      framed (Compress.encode l (be_bytes 2 f.num_probes ++ f.data_bytes) codec) _ out h in
    let sum = be_bytes 4 (checksum_ieee c) in
    let size : length (c ++ sum) ≡ length c + 4 =
      omega (arith, length-append c sum, length-be_bytes 4 (checksum_ieee c)) in
    rw (← same) (omega (arith, size))
