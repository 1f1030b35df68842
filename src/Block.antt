-- ===== src/Block.antt =====
-- internal/sstable/block/block.go: the block, its byte form, and its builder.
mod Samples
pub mod RoundTrip
pub mod Layout
pub mod Iterator
pub mod Stored
use slatedb_go.Prelude.{
  ℕ, zero, suc, ◌+◌, ◌*◌, ◌-◌, ◌%◌, ◌^◌, Bool, true, false, not, ◌&&◌, Option, none, some, List, [],
  ◌∷◌, ◌++◌, length, take, drop, ltb, leb, ◌==◌, if◌then◌else◌,
}
use slatedb_go.Prelude.Bytes.{Bytes}
use slatedb_go.Prelude.Result.{Result, ok, err, panic, ◌>>=◌}
use slatedb_go.BigEndian.{be_bytes, read_be}
use slatedb_go.Compress
use slatedb_go.Compress.{Codec, CompressError, Library}
use slatedb_go.Crc.{checksum_ieee}
use slatedb_go.Types.{Value, tombstone, kind_key_value}
use slatedb_go.Row
use slatedb_go.Row.{Row, zero_time}
use slatedb_go.Row.Prefix.{compute_prefix_len}

-- The field `Data` is named `rows`.
pub record Block : Type 0 where
  pub first_key : Bytes
  pub rows : Bytes
  pub offsets : List ℕ

-- The texts behind "corrupted block: ", and an error of the compressor.
pub data BlockError : Type 0 where
  block_too_small checksum_mismatch buffer_too_small invalid_index no_offsets empty_block :
      BlockError
  offset_exceeds : ℕ → ℕ → BlockError
  compression : CompressError → BlockError

unfoldable pub lift_compress {ℓ} : {A : Type ℓ} → Result CompressError A → Result BlockError A
lift_compress (ok a) = ok a
lift_compress (err e) = err (compression e)
lift_compress panic = panic

-- `AppendUint16` for each offset.
unfoldable pub encode_offsets : List ℕ → Bytes
encode_offsets [] = []
encode_offsets (o ∷ os) = be_bytes 2 o ++ encode_offsets os

-- The buffer that is compressed.
unfoldable pub plain : Block → Bytes
plain b = b.rows ++ (encode_offsets b.offsets ++ be_bytes 2 (length b.offsets))

-- The loop over the offsets, from the start of `buf[index:]`.
decode_offsets : ℕ → ℕ → ℕ → Bytes → Result BlockError (List ℕ)
decode_offsets bound i zero bs = ok []
decode_offsets bound i (suc n) bs = do
  (o, bs) ← read_be 2 bs
  let rest = decode_offsets bound (i + 1) n bs
  if ltb (bound % 2 ^ 16) o then err (offset_exceeds i o) else do os ← rest; ok (o ∷ os)

-- `b.Data[lo:hi]` in uint16 arithmetic. A slice may reach past its length, up to its capacity:
-- `backing` is the array behind it.
slice16 : Bytes → ℕ → ℕ → Result BlockError Bytes
slice16 backing lo hi =
    if ltb hi lo
    then panic
    else if ltb (length backing) hi
    then panic
    else ok (take (hi - lo) (drop lo backing))

decode_first_key : Bytes → Bytes → List ℕ → Result BlockError Bytes
decode_first_key rows backing [] = err no_offsets
decode_first_key rows backing (o ∷ os) = do
  (key_len, _) ← read_be 2 (drop o rows)
  let lo = (o + 2) % 2 ^ 16
  slice16 backing lo ((lo + key_len) % 2 ^ 16)

-- What stands before the checksum, decompressed. `spare` is the part of the array behind it that
-- lies between its length and its capacity.
decode_plain : Bytes → Bytes → Result BlockError Block
decode_plain spare buf = if ltb (length buf) 2 then err buffer_too_small else do
  let count_index = length buf - 2
  (count, _) ← read_be 2 (drop count_index buf)
  if leb count_index (count * 2) then err invalid_index else do
    let start = count_index - count * 2
    offsets ← decode_offsets start 0 count (drop start buf)
    first_key ← decode_first_key (take start buf) (buf ++ spare) offsets
    ok (record { first_key = first_key; rows = take start buf; offsets = offsets })

module _ (l : Library) where
  unfoldable pub encode : Block → Codec → Result BlockError Bytes
  encode b codec = do
    compressed ← lift_compress (Compress.encode l (plain b) codec)
    ok (compressed ++ be_bytes 4 (checksum_ieee compressed))

  pub decode : Bytes → Bytes → Codec → Result BlockError Block
  decode spare input codec = if ltb (length input) 6 then err block_too_small else do
    let compressed = take (length input - 4) input
    (sum, _) ← read_be 4 (drop (length input - 4) input)
    if not (sum == checksum_ieee compressed)
        then err checksum_mismatch
        else do buf ← lift_compress (Compress.decode l compressed codec); decode_plain spare buf

-- `firstKey` is nil before the first row.
pub record Builder : Type 0 where
  pub offsets : List ℕ
  pub rows : Bytes
  pub block_size : ℕ
  pub first_key : Option Bytes

unfoldable pub new_builder : ℕ → Builder
new_builder block_size = record {
  offsets = [];
  rows = [];
  block_size = block_size;
  first_key = none;
}

unfoldable pub cur_block_size : Builder → ℕ
cur_block_size b = 2 + length b.offsets * 2 + length b.rows

unfoldable pub is_empty : Builder → Bool
is_empty b = length b.offsets == 0

-- A nil slice has length 0.
abbrev pub bytes_of : Option Bytes → Bytes
bytes_of none = []
bytes_of (some k) = k

-- The row with its key cut by what it shares with the first key of the block.
abbrev pub cut_key : Bytes → Bytes → Row → Row
cut_key first_key key row =
    let n = compute_prefix_len first_key key in
    record row { key_prefix_len = n; key_suffix = drop n key }

unfoldable pub clone_first : Option Bytes → Bytes → Option Bytes
clone_first none key = some key
clone_first (some k) key = some k

-- The row is refused, and the builder left alone, where it would exceed the size of a block that
-- holds a row already.
unfoldable pub add : Builder → Bytes → Row → Result ⊥ (Builder × Bool)
add b key row =
    if length key == 0
    then panic
    else let row = cut_key (bytes_of b.first_key) key row in
      if ltb b.block_size (cur_block_size b + 2 + Row.v0_size row) && not (is_empty b)
      then ok (b, false)
      else ok (
        record b {
          offsets = b.offsets ++ length b.rows % 2 ^ 16 ∷ [];
          rows = b.rows ++ Row.encode row;
          first_key = clone_first b.first_key key;
        },
        true,
      )

-- A row as the callers make it: a value, and no times.
abbrev pub plain_row : Value → Row
plain_row v = record {
  seq = 0;
  expire_at = zero_time;
  created_at = zero_time;
  value = v;
  key_prefix_len = 0;
  key_suffix = [];
}

pub add_value : Builder → Bytes → Bytes → Result ⊥ (Builder × Bool)
add_value b key value =
    if length value == 0
    then add b key (plain_row tombstone)
    else add b key (plain_row (record { value = value; kind = kind_key_value }))

unfoldable pub build : Builder → Result BlockError Block
build b =
    if is_empty b
    then err empty_block
    else ok (record { first_key = bytes_of b.first_key; rows = b.rows; offsets = b.offsets })
