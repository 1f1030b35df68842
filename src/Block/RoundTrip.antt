-- ===== src/Block/RoundTrip.antt =====
-- `Decode` reads back what `Encode` wrote.
use mathlib.Core.List.{append_assoc}
use slatedb_go.Prelude.{
  ℕ, ◌+◌, ◌*◌, ◌-◌, ◌%◌, ◌^◌, ◌≤◌, ◌<◌, ◌≡◌, refl, ◌∙◌, arith, false, not, List, [], ◌∷◌, ◌++◌,
  length, take, drop, ltb, ◌==◌, length-append, take-append, drop-append, All,
}
use slatedb_go.Prelude.Bytes.{Bytes}
use slatedb_go.Prelude.Result.{Result, ok, err, panic, ◌>>=◌}
use slatedb_go.BigEndian.{be_bytes, length-be_bytes, read_be-be_bytes, read_be-be_bytes_end}
use slatedb_go.Compress
use slatedb_go.Compress.{Codec, Library, IsLossless, CompressError}
use slatedb_go.Crc.{checksum_ieee, checksum_ieee-lt}
use slatedb_go.Block.{
  Block, encode_offsets, plain, decode_offsets, slice16, decode_first_key, decode_plain, encode,
  decode, lift_compress,
}

-- A block as the builder lays it: its offsets fit 16 bits and point into the rows, and the first row
-- stands at the front and shares no prefix.
pub record IsLaid (b : Block) : Type 0 where
  pub bounds : All (λ o. o ≤ length b.rows % 2 ^ 16) b.offsets
  pub count : length b.offsets < 2 ^ 16
  pub os : List ℕ
  pub first : b.offsets ≡ 0 ∷ os
  pub more : Bytes
  pub front : b.rows ≡ be_bytes 2 0 ++ more

length-encode_offsets : (os : List ℕ) → length (encode_offsets os) ≡ length os * 2
unfolding encode_offsets
length-encode_offsets [] = omega arith
length-encode_offsets (o ∷ os) = omega (
  arith,
  length-append (be_bytes 2 o) (encode_offsets os),
  length-be_bytes 2 o,
  length-encode_offsets os,
)

decode_offsets-encode_offsets :
    (bound i : ℕ) (os : List ℕ) (rest : Bytes)
    → All (λ o. o ≤ bound % 2 ^ 16) os
    → decode_offsets bound i (length os) (encode_offsets os ++ rest) ≡ ok os
unfolding decode_offsets encode_offsets
decode_offsets-encode_offsets bound i [] rest h = refl
decode_offsets-encode_offsets bound i (o ∷ os) rest h =
    let fits : o < 256 ^ 2 = omega arith in
    let within : ltb (bound % 2 ^ 16) o ≡ false = ground arith in
    rw append_assoc (
      rw (read_be-be_bytes 2 o _ fits)
        (rw within (rw (decode_offsets-encode_offsets bound (i + 1) os rest h.1))))

-- Where the count, the offsets and the rows of the buffer stand.
module _ (b : Block) where
  length-plain : length (plain b) - 2 ≡ length b.rows + length b.offsets * 2
  unfolding plain
  length-plain = omega (
    arith,
    length-append b.rows (encode_offsets b.offsets ++ be_bytes 2 (length b.offsets)),
    length-append (encode_offsets b.offsets) (be_bytes 2 (length b.offsets)),
    length-encode_offsets b.offsets,
    length-be_bytes 2 (length b.offsets),
  )

  drop_to_count :
      drop (length b.rows + length b.offsets * 2) (plain b) ≡ be_bytes 2 (length b.offsets)
  unfolding plain
  drop_to_count = rw (← append_assoc) (
      drop-append _ (b.rows ++ encode_offsets b.offsets) _ (
        omega (
          arith,
          length-append b.rows (encode_offsets b.offsets),
          length-encode_offsets b.offsets,
        )))

  drop_to_offsets :
      drop (length b.rows) (plain b) ≡ encode_offsets b.offsets ++ be_bytes 2 (length b.offsets)
  unfolding plain
  drop_to_offsets = drop-append (length b.rows) b.rows _ refl

  take_rows : take (length b.rows) (plain b) ≡ b.rows
  unfolding plain
  take_rows = take-append (length b.rows) b.rows _ refl

  plain-front :
      (spare : Bytes)
      → plain b ++ spare
        ≡ b.rows ++ (encode_offsets b.offsets ++ (be_bytes 2 (length b.offsets) ++ spare))
  unfolding plain
  plain-front spare = simp append_assoc

decode_first_key_lem :
    (b : Block) (spare : Bytes)
    → IsLaid b
    → decode_first_key b.rows (plain b ++ spare) b.offsets ≡ ok []
unfolding decode_first_key slice16
decode_first_key_lem b spare laid = rw plain-front (
    rw laid.first (
      rw laid.front (
        rw (read_be-be_bytes 2 0 laid.more (omega arith)) (
          ground (
            arith,
            length-append (be_bytes 2 0 ++ laid.more)
                (encode_offsets b.offsets ++ (be_bytes 2 (length b.offsets) ++ spare)),
            length-append (be_bytes 2 0) laid.more,
            length-be_bytes 2 0,
          )))))

length-rows : (b : Block) → IsLaid b → 2 ≤ length b.rows
length-rows b laid =
    rw laid.front (omega (arith, length-append (be_bytes 2 0) laid.more, length-be_bytes 2 0))

decode_plain_lem :
    (b : Block) (spare : Bytes)
    → IsLaid b
    → decode_plain spare (plain b) ≡ ok (record b { first_key = [] })
unfolding decode_plain
decode_plain_lem b spare laid =
    let n = length b.offsets in
    let long : ltb (length (plain b)) 2 ≡ false =
      ground (arith, length-plain b, length-rows b laid) in
    let start : length b.rows + n * 2 - n * 2 ≡ length b.rows = omega arith in
    rw long (
      rw (length-plain b) (
        rw (drop_to_count b) (
          rw (read_be-be_bytes_end 2 n laid.count) (
            rw start (
              rw (drop_to_offsets b) (
                rw (take_rows b) (
                  rw (decode_offsets-encode_offsets (length b.rows) 0 b.offsets _ laid.bounds) (
                    rw (decode_first_key_lem b spare laid)
                      (ground (arith, length-rows b laid))))))))))

framed :
    (m : Result CompressError Bytes) (f : Bytes → Bytes) (out : Bytes)
    → (lift_compress m >>= λ c. ok (f c)) ≡ ok out
    → (c : Bytes) × (m ≡ ok c) × (f c ≡ out)
unfolding lift_compress
framed (ok c) f out h = (c, refl, cc)
framed (err e) f out h = cc
framed panic f out h = cc

-- A checksum that fits is found and taken off.
decode_framed :
    (l : Library) (spare c buf : Bytes) (codec : Codec)
    → 6 ≤ length (c ++ be_bytes 4 (checksum_ieee c))
    → Compress.decode l c codec ≡ ok buf
    → decode l spare (c ++ be_bytes 4 (checksum_ieee c)) codec ≡ decode_plain spare buf
unfolding decode lift_compress
decode_framed l spare c buf codec long h =
    let sum = be_bytes 4 (checksum_ieee c) in
    let short : ltb (length (c ++ sum)) 6 ≡ false = ground arith in
    let start : length (c ++ sum) - 4 ≡ length c =
      omega (arith, length-append c sum, length-be_bytes 4 (checksum_ieee c)) in
    let same : not (checksum_ieee c == checksum_ieee c) ≡ false = ground arith in
    rw short (
      rw start (
        rw (take-append (length c) c sum refl) (
          rw (drop-append (length c) c sum refl)
            (rw (read_be-be_bytes_end 4 (checksum_ieee c) (checksum_ieee-lt c)) (rw same (rw h))))))

-- With lossless compressors, whatever the codec and whatever stands behind the buffer, the encoding
-- of a block that is laid as the builder does, if it has at least 6 bytes, is decoded with the
-- rows and the offsets of the block, and with an empty first key.
pub decode-encode_laid :
    (l : Library) (lossless : IsLossless l) (b : Block) (spare out : Bytes) (codec : Codec)
    → IsLaid b
    → 6 ≤ length out
    → encode l b codec ≡ ok out
    → decode l spare out codec ≡ ok (record b { first_key = [] })
unfolding encode
decode-encode_laid l lossless b spare out codec laid long h =
    let (c, e, f) = framed (Compress.encode l (plain b) codec) _ out h in
    rw (← f) (
      decode_framed l spare c (plain b) codec (rw f long)
        (Compress.decode-encode l lossless (plain b) c codec e)
      ∙ decode_plain_lem b spare laid)
