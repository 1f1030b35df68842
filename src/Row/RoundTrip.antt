-- ===== src/Row/RoundTrip.antt =====
-- `Decode` reads back what `Encode` wrote.
use mathlib.Core.List.{append_assoc}
use slatedb_go.Prelude.{
  ◌+◌, ◌%◌, ◌^◌, ◌≤◌, ◌<◌, ◌≡◌, refl, inl, inr, arith, false, not, ◌∷◌, ◌++◌, length, ltb,
  if◌then◌else◌, length-append, take-append, drop-append, Bool-cases,
}
use slatedb_go.Prelude.Bytes.{Bytes}
use slatedb_go.Prelude.Result.{ok}
use slatedb_go.BigEndian.{be_bytes, length-be_bytes, read_be-be_bytes}
use slatedb_go.Types.{Value, is_tombstone, to_value}
use slatedb_go.Row.{
  Time, Row, RowError, zero_time, time_of_milli, has_time, v0_flags, v0_size, encode_time,
  encode_value, encode, read_time, read_value, byte_at, has_flag, decode_rest, decode_key, decode,
  peek_at_key, empty_row, flag_tombstone, flag_has_expire, flag_has_create, short_expire,
  short_create,
}

-- The fields fit their widths, and the prefix is a prefix of the first key.
pub record Fits (r : Row) (first_key : Bytes) : Type 0 where
  pub seq : r.seq < 2 ^ 64
  pub expire : r.expire_at.unix_milli < 2 ^ 64
  pub create : r.created_at.unix_milli < 2 ^ 64
  pub value : length r.value.value < 2 ^ 32
  pub suffix : length r.key_suffix < 2 ^ 16
  pub prefix : r.key_prefix_len ≤ length first_key % 2 ^ 16

-- A time comes back to the millisecond, and as the zero time if it lies on a whole second.
pub stored_time : Time → Time
stored_time t = if has_time t then time_of_milli t.unix_milli else zero_time

abbrev pub stored : Row → Row
stored r = record r {
  expire_at = stored_time r.expire_at;
  created_at = stored_time r.created_at;
  value = to_value r.value;
}

-- The three flags are told apart in the byte.
flags_lem :
    (r : Row)
    → (has_flag (v0_flags r) flag_has_expire ≡ has_time r.expire_at)
      × (has_flag (v0_flags r) flag_has_create ≡ has_time r.created_at)
      × (has_flag (v0_flags r) flag_tombstone ≡ is_tombstone r.value)
unfolding has_flag v0_flags
flags_lem r = ground arith

read_time-encode_time :
    (t : Time) (e : RowError) (rest : Bytes)
    → t.unix_milli < 2 ^ 64
    → read_time (has_time t) e (encode_time t ++ rest) ≡ ok (stored_time t, rest)
unfolding read_time encode_time stored_time
read_time-encode_time t e rest h = elim (Bool-cases (has_time t)) [
  | inl y ↦ rw y (
      rw (read_be-be_bytes 8 t.unix_milli rest h) (
        ground
          (arith, length-append (be_bytes 8 t.unix_milli) rest, length-be_bytes 8 t.unix_milli)))
  | inr n ↦ rw n
]

read_value-encode_value :
    (v : Value) (rest : Bytes)
    → length v.value < 2 ^ 32
    → read_value (not (is_tombstone v)) (encode_value v ++ rest) ≡ ok (to_value v)
unfolding read_value encode_value to_value
read_value-encode_value v rest h = elim (Bool-cases (is_tombstone v)) [
  | inl y ↦ rw y
  | inr n ↦ rw n (
      rw append_assoc (
        rw (read_be-be_bytes 4 (length v.value) _ h) (
          rw (take-append (length v.value) v.value rest refl) (
            ground (
              arith,
              length-append (be_bytes 4 (length v.value)) (v.value ++ rest),
              length-append v.value rest,
              length-be_bytes 4 (length v.value),
            )))))
]

length-encode_time : (t : Time) → length (encode_time t) ≡ (if has_time t then 8 else 0)
unfolding encode_time
length-encode_time t = ground (arith, length-be_bytes 8 t.unix_milli)

length-encode_value :
    (v : Value) → length (encode_value v) ≡ (if is_tombstone v then 0 else 4 + length v.value)
unfolding encode_value
length-encode_value v =
    ground (
      arith,
      length-append (be_bytes 4 (length v.value)) v.value,
      length-be_bytes 4 (length v.value),
    )

-- The encoding fills the buffer of `v0Size` bytes exactly.
pub length-encode : (r : Row) → length (encode r) ≡ v0_size r
unfolding encode v0_size
length-encode r =
    simp (length-append, length-be_bytes, length-encode_time, length-encode_value) (omega arith)

-- What stands behind the key in an encoding that `rest` follows.
abbrev behind_key : Row → Bytes → Bytes
behind_key r rest =
    be_bytes 8 r.seq
    ++ (v0_flags r
        ∷ (encode_time r.expire_at ++ (encode_time r.created_at ++ (encode_value r.value ++ rest))))

encode-append :
    (r : Row) (rest : Bytes)
    → encode r ++ rest
      ≡ be_bytes 2 r.key_prefix_len
        ++ (be_bytes 2 (length r.key_suffix) ++ (r.key_suffix ++ behind_key r rest))
unfolding encode
encode-append r rest = simp append_assoc

-- What follows the key is read back.
decode_rest_lem :
    (r : Row) (rest first_key : Bytes)
    → Fits r first_key
    → decode_rest r.key_prefix_len r.key_suffix (behind_key r rest) ≡ ok (stored r)
unfolding decode_rest byte_at
decode_rest_lem r rest first_key f = rw (read_be-be_bytes 8 r.seq _ f.seq) (
    rw (flags_lem r).0 (
      rw (flags_lem r).1 (
        rw (flags_lem r).2 (
          rw (read_time-encode_time r.expire_at short_expire _ f.expire) (
            rw (read_time-encode_time r.created_at short_create _ f.create)
              (rw (read_value-encode_value r.value rest f.value)))))))

decode_key_lem :
    (r : Row) (rest first_key : Bytes)
    → Fits r first_key
    → decode_key
        (be_bytes 2 r.key_prefix_len
          ++ (be_bytes 2 (length r.key_suffix) ++ (r.key_suffix ++ rest)))
        first_key
      ≡ ok (r.key_prefix_len, r.key_suffix, rest)
unfolding decode_key
decode_key_lem r rest first_key f = rw (read_be-be_bytes 2 r.key_prefix_len _ (omega arith)) (
    rw (read_be-be_bytes 2 (length r.key_suffix) _ f.suffix) (
      rw (take-append (length r.key_suffix) r.key_suffix rest refl) (
        rw (drop-append (length r.key_suffix) r.key_suffix rest refl)
          (ground (arith, length-append r.key_suffix rest, f.prefix)))))

-- An encoding is at least as long as the shortest row.
encode-length-bound : (r : Row) (rest : Bytes) → 13 ≤ length (encode r ++ rest)
unfolding v0_size
encode-length-bound r rest = omega (arith, length-append (encode r) rest, length-encode r)

-- Decoding the encoding of a row whose fields fit, whatever follows it, gives the row back, with
-- its times cut to milliseconds and its value in normal form. A time whose nanosecond part is 0
-- comes back as the zero time.
pub decode-encode_append :
    (r : Row) (rest first_key : Bytes)
    → Fits r first_key
    → decode (encode r ++ rest) first_key ≡ ok (stored r)
unfolding decode
decode-encode_append r rest first_key f =
    let long : ltb (length (encode r ++ rest)) 13 ≡ false =
      ground (arith, encode-length-bound r rest) in
    rw long (
      rw encode-append (
        rw (decode_key_lem r (behind_key r rest) first_key f) (decode_rest_lem r rest first_key f)))

-- A peek at the encoding of a row gives its prefix length and its suffix.
pub peek_at_key-encode :
    (r : Row) (rest first_key : Bytes)
    → Fits r first_key
    → peek_at_key (encode r ++ rest) first_key
      ≡ ok (record empty_row { key_prefix_len = r.key_prefix_len; key_suffix = r.key_suffix })
unfolding peek_at_key
peek_at_key-encode r rest first_key f =
    let long : ltb (length (encode r ++ rest)) 4 ≡ false =
      ground (arith, encode-length-bound r rest) in
    rw long (rw encode-append (rw (decode_key_lem r (behind_key r rest) first_key f)))

-- An encoding begins with the length of the prefix.
pub encode-front : (r : Row) → (more : Bytes) × (encode r ≡ be_bytes 2 r.key_prefix_len ++ more)
unfolding encode
encode-front r = (_, refl)
