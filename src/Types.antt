-- ===== src/Types.antt =====
-- internal/types/types.go: values, rows and their byte form in the in-memory tables.
pub mod Warn
mod Samples
use slatedb_go.Prelude.{ℕ, ◌≡◌, Bool, arith, Option, none, some, List, [], ◌∷◌, ◌==◌, if◌then◌else◌}
use slatedb_go.Prelude.Bytes.{Bytes}
use slatedb_go.Prelude.Result.{Result, ok, panic}

-- Kind is a byte.
abbrev pub Kind : Type 0
Kind = ℕ

abbrev pub kind_key_value : Kind
kind_key_value = 0

abbrev pub kind_tomb_stone : Kind
kind_tomb_stone = 1

abbrev pub kind_merge : Kind
kind_merge = 2

pub record Value : Type 0 where
  pub value : Bytes
  pub kind : Kind

pub record KeyValue : Type 0 where
  pub key : Bytes
  pub value : Bytes

pub record RowEntry : Type 0 where
  pub key : Bytes
  pub value : Value

unfoldable pub is_tombstone : Value → Bool
is_tombstone v = v.kind == kind_tomb_stone

abbrev pub tombstone : Value
tombstone = record { value = []; kind = kind_tomb_stone }

-- `b[0]` panics on an empty slice.
unfoldable pub value_from_bytes : Bytes → Result ⊥ Value
value_from_bytes [] = panic
value_from_bytes (b ∷ rest) =
    ok (if b == kind_tomb_stone then tombstone else record { value = rest; kind = kind_key_value })

unfoldable pub to_bytes : Value → Bytes
unfolding is_tombstone
to_bytes v = if is_tombstone v then kind_tomb_stone ∷ [] else kind_key_value ∷ v.value

unfoldable pub get_value : Value → Option Bytes
unfolding is_tombstone
get_value v = if is_tombstone v then none else some v.value

-- Row.ToValue of sstable/block/row.go: a tombstone loses its bytes, any other kind becomes a value.
unfoldable pub to_value : Value → Value
unfolding is_tombstone
to_value v = if is_tombstone v then tombstone else record { value = v.value; kind = kind_key_value }

-- What the tables write for a value is read back as its normal form, without a panic.
pub value_from_bytes-to_bytes : (v : Value) → value_from_bytes (to_bytes v) ≡ ok (to_value v)
unfolding value_from_bytes to_bytes to_value
value_from_bytes-to_bytes v = ground arith

-- The normal form is seen alike by `GetValue`.
pub get_value-to_value : (v : Value) → get_value (to_value v) ≡ get_value v
unfolding get_value to_value
get_value-to_value v = ground arith

pub to_bytes-to_value : (v : Value) → to_bytes (to_value v) ≡ to_bytes v
unfolding to_bytes to_value
to_bytes-to_value v = ground arith

pub to_value_idem : (v : Value) → to_value (to_value v) ≡ to_value v
unfolding to_value
to_value_idem v = ground arith
