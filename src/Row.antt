-- ===== src/Row.antt =====
-- internal/sstable/block/row.go: the row of a block and its v0 codec.
mod Samples
pub mod RoundTrip
pub mod Prefix
use Prim.Native.Nat.{bit_and, bit_or}
use slatedb_go.Prelude.{
  ℕ, zero, suc, ◌+◌, ◌*◌, ◌/◌, ◌-◌, ◌%◌, ◌^◌, Bool, true, false, not, ◌&&◌, List, [], ◌∷◌, ◌++◌,
  length, take, drop, min, ltb, ◌==◌, if◌then◌else◌,
}
use slatedb_go.Prelude.Bytes.{Bytes, equal_bytes, compare_bytes}
use slatedb_go.Prelude.Result.{Result, ok, err, panic, ◌>>=◌}
use slatedb_go.BigEndian.{be_bytes, read_be}
use slatedb_go.Types.{Value, kind_key_value, tombstone, is_tombstone}

-- A time.Time in the range that `UnixMilli` is documented for: the int64 of its Unix milliseconds, as
-- a bit pattern below 2 ^ 64, and the nanoseconds below a millisecond.
pub record Time : Type 0 where
  pub unix_milli : ℕ
  pub sub_milli : ℕ

-- The zero Time: January 1 of year 1, 62135596800 seconds before 1970.
abbrev pub zero_time : Time
zero_time = record { unix_milli = 2 ^ 64 - 62135596800000; sub_milli = 0 }

-- time.UnixMilli
abbrev pub time_of_milli : ℕ → Time
time_of_milli m = record { unix_milli = m; sub_milli = 0 }

-- Time.Nanosecond: the offset within the second. A pattern from 2 ^ 63 on is m - 2 ^ 64, and
-- 2 ^ 64 is 616 mod 1000.
unfoldable pub nanosecond : Time → ℕ
nanosecond t =
    (if ltb t.unix_milli (2 ^ 63) then t.unix_milli % 1000 else (t.unix_milli + 384) % 1000)
      * 1000000
    + t.sub_milli

pub record Row : Type 0 where
  pub seq : ℕ
  pub expire_at : Time
  pub created_at : Time
  pub value : Value
  pub key_prefix_len : ℕ
  pub key_suffix : Bytes

-- The texts behind `v0ErrPrefix`.
pub data RowError : Type 0 where
  too_short prefix_exceeds_first_key suffix_exceeds_block short_expire short_create : RowError
  short_value_length short_value short_peek : RowError

abbrev pub flag_tombstone : ℕ
flag_tombstone = 1

abbrev pub flag_has_expire : ℕ
flag_has_expire = 2

abbrev pub flag_has_create : ℕ
flag_has_create = 4

-- The test by which the codec keeps a time.
unfoldable pub has_time : Time → Bool
has_time t = not (nanosecond t == 0)

unfoldable pub v0_flags : Row → ℕ
v0_flags r =
    let f = if is_tombstone r.value then bit_or 0 flag_tombstone else 0 in
    let g = if has_time r.expire_at then bit_or f flag_has_expire else f in
    if has_time r.created_at then bit_or g flag_has_create else g

unfoldable pub v0_size : Row → ℕ
v0_size r =
    2
    + 2
    + length r.key_suffix
    + 8
    + 1
    + (if has_time r.expire_at then 8 else 0)
    + (if has_time r.created_at then 8 else 0)
    + (if is_tombstone r.value then 0 else 4 + length r.value.value)

-- `assert.True` panics. The comparison is of a uint16 with a length cut to 16 bits.
unfoldable pub v0_full_key : {E : Type 0} → Row → Bytes → Result E Bytes
v0_full_key r prefix =
    if ltb (length prefix % 2 ^ 16) r.key_prefix_len
    then panic
    else ok (take r.key_prefix_len prefix ++ r.key_suffix)

unfoldable pub encode_time : Time → Bytes
encode_time t = if has_time t then be_bytes 8 t.unix_milli else []

unfoldable pub encode_value : Value → Bytes
encode_value v = if is_tombstone v then [] else be_bytes 4 (length v.value) ++ v.value

-- The buffer of `v0Size` bytes is filled from left to right; `PutUint16` keeps 16 bits.
unfoldable pub encode : Row → Bytes
encode r =
    be_bytes 2 r.key_prefix_len
    ++ (be_bytes 2 (length r.key_suffix)
        ++ (r.key_suffix
            ++ (be_bytes 8 r.seq
                ++ (v0_flags r
                    ∷ (encode_time r.expire_at
                        ++ (encode_time r.created_at ++ encode_value r.value))))))

-- `if flags&flag != 0`, with the check of the length.
read_time : Bool → RowError → Bytes → Result RowError (Time × Bytes)
read_time false e bs = ok (zero_time, bs)
read_time true e bs =
    if ltb (length bs) 8 then err e else do (m, rest) ← read_be 8 bs; ok (time_of_milli m, rest)

read_value : Bool → Bytes → Result RowError Value
read_value false bs = ok tombstone
read_value true bs = if ltb (length bs) 4 then err short_value_length else do
  (n, rest) ← read_be 4 bs
  if ltb (length rest) n
      then err short_value
      else ok (record { value = take n rest; kind = kind_key_value })

-- `data[offset]`
byte_at : Bytes → Result RowError (ℕ × Bytes)
byte_at [] = panic
byte_at (b ∷ bs) = ok (b, bs)

has_flag : ℕ → ℕ → Bool
has_flag flags flag = not (bit_and flags flag == 0)

-- Behind the key. The reads of the sequence number and of the flags are not checked in the source.
decode_rest : ℕ → Bytes → Bytes → Result RowError Row
decode_rest prefix_len suffix bs = do
  (seq, bs) ← read_be 8 bs
  (flags, bs) ← byte_at bs
  (expire, bs) ← read_time (has_flag flags flag_has_expire) short_expire bs
  (create, bs) ← read_time (has_flag flags flag_has_create) short_create bs
  value ← read_value (not (has_flag flags flag_tombstone)) bs
  ok (record {
    seq = seq;
    expire_at = expire;
    created_at = create;
    value = value;
    key_prefix_len = prefix_len;
    key_suffix = suffix;
  })

-- The key prefix length, the key suffix, and what follows them.
unfoldable pub decode_key : Bytes → Bytes → Result RowError (ℕ × Bytes × Bytes)
decode_key bs first_key = do
  (prefix_len, bs) ← read_be 2 bs
  (suffix_len, bs) ← read_be 2 bs
  if ltb (length first_key % 2 ^ 16) prefix_len
      then err prefix_exceeds_first_key
      else if ltb (length bs) suffix_len
      then err suffix_exceeds_block
      else ok (prefix_len, take suffix_len bs, drop suffix_len bs)

pub decode : Bytes → Bytes → Result RowError Row
decode bs first_key =
    if ltb (length bs) 13
    then err too_short
    else do (prefix_len, suffix, rest) ← decode_key bs first_key; decode_rest prefix_len suffix rest

abbrev pub empty_row : Row
empty_row = record {
  seq = 0;
  expire_at = zero_time;
  created_at = zero_time;
  value = record { value = []; kind = kind_key_value };
  key_prefix_len = 0;
  key_suffix = [];
}

unfoldable pub peek_at_key : Bytes → Bytes → Result RowError Row
peek_at_key bs first_key = if ltb (length bs) 4 then err short_peek else do
  (prefix_len, suffix, rest) ← decode_key bs first_key
  ok (record empty_row { key_prefix_len = prefix_len; key_suffix = suffix })
