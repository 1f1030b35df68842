-- ===== src/Row/Samples.antt =====
-- Runs of the row codec, and its theorems at concrete rows.
use slatedb_go.Prelude.{◌≡◌, ◌%◌, ◌^◌, refl, arith, [], ◌∷◌, ◌++◌}
use slatedb_go.Prelude.Bytes.{Bytes}
use slatedb_go.Prelude.Result.{ok, panic}
use slatedb_go.BigEndian.{be_bytes, be_value, read_be}
use slatedb_go.Types.{is_tombstone}
use slatedb_go.Row.{
  Row, nanosecond, has_time, v0_flags, encode_time, encode_value, encode, decode_rest, decode_key,
  decode, peek_at_key, empty_row,
}
use slatedb_go.Row.Prefix.{compute_prefix_chunks, compute_prefix_chunks_lem, common}
use slatedb_go.Row.RoundTrip.{Fits, stored, decode-encode_append, peek_at_key-encode}

-- A row that expires 1500 ms after 1970 and was created on a whole second.
abbrev pub sample : Row
sample = record {
  seq = 7;
  expire_at = record { unix_milli = 1500; sub_milli = 250 };
  created_at = record { unix_milli = 2000; sub_milli = 0 };
  value = record { value = 0x76 ∷ []; kind = 0 };
  key_prefix_len = 1;
  key_suffix = 0x62 ∷ [];
}

abbrev pub sample_bytes : Bytes
sample_bytes =
    0 ∷ 1 ∷ 0 ∷ 1 ∷ 0x62 ∷ 0 ∷ 0 ∷ 0 ∷ 0 ∷ 0 ∷ 0 ∷ 0 ∷ 7 ∷ 2 ∷ 0 ∷ 0 ∷ 0 ∷ 0 ∷ 0 ∷ 0 ∷ 5 ∷ 0xdc ∷ 0
    ∷ 0 ∷ 0 ∷ 1 ∷ 0x76 ∷ []

encode-sample : encode sample ≡ sample_bytes
unfolding encode encode_time encode_value v0_flags has_time nanosecond is_tombstone be_bytes
encode-sample = refl

-- A suffix that takes up the buffer leaves no room for the sequence number, and the read panics.
decode_panics : decode (0 ∷ 0 ∷ 0 ∷ 9 ∷ 1 ∷ 2 ∷ 3 ∷ 4 ∷ 5 ∷ 6 ∷ 7 ∷ 8 ∷ 9 ∷ []) [] ≡ panic
unfolding decode decode_key decode_rest read_be be_value
decode_panics = refl

sample-Fits : Fits sample (0x61 ∷ [])
sample-Fits = omega arith

decode-encode_append_example : decode (encode sample ++ 9 ∷ []) (0x61 ∷ []) ≡ ok (stored sample)
decode-encode_append_example = decode-encode_append sample (9 ∷ []) (0x61 ∷ []) sample-Fits

peek_at_key-encode_example :
    peek_at_key (encode sample ++ []) (0x61 ∷ [])
    ≡ ok (record empty_row { key_prefix_len = 1; key_suffix = 0x62 ∷ [] })
peek_at_key-encode_example = peek_at_key-encode sample [] (0x61 ∷ []) sample-Fits

compute_prefix_chunks_example :
    compute_prefix_chunks (1 ∷ 2 ∷ 3 ∷ []) (1 ∷ 2 ∷ 4 ∷ []) 2
    ≡ common (1 ∷ 2 ∷ 3 ∷ []) (1 ∷ 2 ∷ 4 ∷ []) % 2 ^ 16
compute_prefix_chunks_example =
    compute_prefix_chunks_lem (1 ∷ 2 ∷ 3 ∷ []) (1 ∷ 2 ∷ 4 ∷ []) 2 (omega arith)
