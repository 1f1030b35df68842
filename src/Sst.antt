-- ===== src/Sst.antt =====
-- internal/sstable: table ids and handles (table.go) and the metadata of a table (sstable.go).
-- A Go string is its bytes. Package ulid is not part of the repository: a ULID is an array of 16
-- bytes, and its two conversions are the parameter `Ulids`.
pub mod FirstBlock
pub mod Index
pub mod Build
pub mod Read
pub mod Blocks
pub mod Iterator
use slatedb_go.Prelude.{
  ℕ, ◌^◌, ◌<◌, ◌≡◌, refl, ap, Bool, false, Option, none, some, [], ◌∷◌, length, ◌==◌, if◌then◌else◌,
}
use slatedb_go.Prelude.Bytes.{Bytes, le_bytes}
use slatedb_go.Decimal.{format20, atoi, atoi-format20}
use slatedb_go.Compress.{Codec}

abbrev pub Ulid : Type 0
Ulid = Bytes

-- The array of zeros.
abbrev pub zero_ulid : Ulid
zero_ulid = 0 ∷ 0 ∷ 0 ∷ 0 ∷ 0 ∷ 0 ∷ 0 ∷ 0 ∷ 0 ∷ 0 ∷ 0 ∷ 0 ∷ 0 ∷ 0 ∷ 0 ∷ 0 ∷ []

-- `ULID.String` and `ulid.Parse`.
pub record Ulids : Type 0 where
  pub to_string : Ulid → Bytes
  pub parse : Bytes → Option Ulid

-- The text of a ULID parses to it.
pub record IsFaithful (u : Ulids) : Type 0 where
  pub parse-to_string : (x : Ulid) → u.parse (u.to_string x) ≡ some x

-- IDType is an int with two constants.
pub data IdType : Type 0 where
  wal compacted : IdType
  other_type : ℕ → IdType

pub record TableId : Type 0 where
  pub typ : IdType
  pub value : Bytes

pub new_id_wal : ℕ → TableId
new_id_wal n = record { typ = wal; value = format20 n }

unfoldable pub or_zero : Option ℕ → ℕ
or_zero none = 0
or_zero (some n) = n

unfoldable pub or_zero_ulid : Option Ulid → Ulid
or_zero_ulid none = zero_ulid
or_zero_ulid (some x) = x

wal_id_of : IdType → Bytes → Option ℕ
wal_id_of wal value = atoi value
wal_id_of compacted value = none
wal_id_of (other_type n) value = none

pub wal_id : TableId → Option ℕ
wal_id id = wal_id_of id.typ id.value

pub wal_id-new_id_wal : (n : ℕ) → n < 2 ^ 63 → wal_id (new_id_wal n) ≡ some n
unfolding wal_id wal_id_of new_id_wal
wal_id-new_id_wal n h = atoi-format20 n h

pub record Info : Type 0 where
  pub first_key : Bytes
  pub index_offset : ℕ
  pub index_len : ℕ
  pub filter_offset : ℕ
  pub filter_len : ℕ
  pub compression_codec : Codec

-- A copy of each field.
pub clone_info : Info → Info
clone_info i = record {
  first_key = i.first_key;
  index_offset = i.index_offset;
  index_len = i.index_len;
  filter_offset = i.filter_offset;
  filter_len = i.filter_len;
  compression_codec = i.compression_codec;
}

pub record Handle : Type 0 where
  pub id : TableId
  pub info : Info

pub new_handle : TableId → Info → Handle
new_handle id info = record { id = id; info = info }

-- A table covers a key from its first key on.
pub range_covers_key : Handle → Bytes → Bool
range_covers_key h key =
    if length h.info.first_key == 0 then false else le_bytes h.info.first_key key

module _ (u : Ulids) where
  unfoldable pub new_id_compacted : Ulid → TableId
  new_id_compacted x = record { typ = compacted; value = u.to_string x }

  compacted_id_of : IdType → Bytes → Option Ulid
  compacted_id_of wal value = none
  compacted_id_of compacted value = u.parse value
  compacted_id_of (other_type n) value = none

  pub compacted_id : TableId → Option Ulid
  compacted_id id = compacted_id_of id.typ id.value

  -- An id is cloned through the number or the ULID that its text stands for.
  clone_id_of : IdType → Bytes → TableId
  clone_id_of wal value = new_id_wal (or_zero (atoi value))
  clone_id_of compacted value = new_id_compacted (or_zero_ulid (u.parse value))
  clone_id_of (other_type n) value = record { typ = other_type 0; value = [] }

  pub clone_id : TableId → TableId
  clone_id id = clone_id_of id.typ id.value

  pub clone_handle : Handle → Handle
  clone_handle h = record { id = clone_id h.id; info = clone_info h.info }

-- An id that one of the two constructors made.
pub data IsMade (u : Ulids) (id : TableId) : Type 0 where
  made_wal : (n : ℕ) → n < 2 ^ 63 → id ≡ new_id_wal n → IsMade u id
  made_compacted : (x : Ulid) → id ≡ new_id_compacted u x → IsMade u id

module _ (u : Ulids) (faithful : IsFaithful u) where
  pub compacted_id-new_id_compacted : (x : Ulid) → compacted_id u (new_id_compacted u x) ≡ some x
  unfolding compacted_id compacted_id_of new_id_compacted
  compacted_id-new_id_compacted x = faithful.parse-to_string x

  -- An id of a table that was written is cloned to itself; a WAL id only below 2 ^ 63.
  pub clone_id_made : (id : TableId) → IsMade u id → clone_id u id ≡ id
  unfolding clone_id clone_id_of new_id_wal new_id_compacted or_zero or_zero_ulid
  clone_id_made id (made_wal n h e) = rw e (rw (atoi-format20 n h))
  clone_id_made id (made_compacted x e) = rw e (rw (faithful.parse-to_string x))

  pub clone_handle_made : (h : Handle) → IsMade u h.id → clone_handle u h ≡ h
  unfolding clone_handle clone_info
  clone_handle_made h made = ap (λ i. record { id = i; info = h.info }) (clone_id_made h.id made)

-- Conversions for the concrete cases: a ULID that is its own text.
abbrev pub plain_ulids : Ulids
plain_ulids = record { to_string = λ x. x; parse = some }

pub plain_ulids-IsFaithful : IsFaithful plain_ulids
plain_ulids-IsFaithful = record { parse-to_string = λ x. refl }

abbrev pub table : Bytes → Ulid → Handle
table key x = record {
  id = new_id_compacted plain_ulids x;
  info = record {
    first_key = key;
    index_offset = 0;
    index_len = 0;
    filter_offset = 0;
    filter_len = 0;
    compression_codec = Codec.uncompressed;
  };
}
