-- ===== src/Block/Iterator.antt =====
-- internal/sstable/block/iterator.go: iteration over the rows of a block, from its start or from a
-- key. A warning is kept by what its text is made from.
pub mod Drain
pub mod AtKey
use slatedb_go.Prelude.{
  ℕ, zero, suc, ◌+◌, ◌*◌, ◌/◌, ◌-◌, ◌%◌, ◌^◌, Bool, true, false, Option, none, some, List, [], ◌∷◌,
  ◌++◌, length, drop, ltb, leb, ◌==◌, if◌then◌else◌, get_elem?,
}
use slatedb_go.Prelude.Bytes.{Bytes, equal_bytes, le_bytes}
use slatedb_go.Prelude.Result.{Result, ok, err, panic, ◌>>=◌}
use slatedb_go.Types.{RowEntry, to_value}
use slatedb_go.Row
use slatedb_go.Row.{Row, RowError, v0_full_key}
use slatedb_go.Block.{Block, bytes_of}

pub data Warning : Type 0 where
  peeking_first : ℕ → RowError → Warning
  no_full_key : Warning
  out_of_bounds : ℕ → ℕ → Warning
  peeking : ℕ → RowError → Warning
  decoding : ℕ → RowError → Warning

pub record Iterator : Type 0 where
  pub block : Block
  pub offset_index : ℕ
  pub warn : List Warning
  pub first_key : Option Bytes

unfoldable pub new_iterator : Block → Iterator
new_iterator b = record { block = b; offset_index = 0; warn = []; first_key = none }

-- `data[offset:]` panics behind the end.
unfoldable pub slice_from {ℓ} :
    {E : Type 0} {A : Type ℓ} → ℕ → Bytes → (Bytes → Result E A) → Result E A
slice_from offset bs k = if ltb (length bs) offset then panic else k (drop offset bs)

-- A result of `Decode`, a warning, or a panic.
after_decode : Iterator → Result RowError Row → Result ⊥ (Iterator × Option RowEntry)
after_decode it (err e) = ok (record it { warn = it.warn ++ decoding it.offset_index e ∷ [] }, none)
after_decode it panic = panic
after_decode it (ok r) = do
  first ← elim it.first_key [ none ↦ v0_full_key r [] | some k ↦ ok k ]
  key ← v0_full_key r first
  ok (
    record it { offset_index = it.offset_index + 1; first_key = some first },
    some (record { key = key; value = to_value r.value }),
  )

at_offset : Iterator → Option ℕ → Result ⊥ (Iterator × Option RowEntry)
at_offset it none = ok (it, none)
at_offset it (some offset) =
    slice_from offset it.block.rows λ bs. after_decode it (Row.decode bs (bytes_of it.first_key))

-- No offset at the index means that the block is exhausted.
pub next_entry : Iterator → Result ⊥ (Iterator × Option RowEntry)
next_entry it = at_offset it (get_elem? it.block.offsets it.offset_index)

-- The entries up to the first call that returns none, in at most `fuel` calls.
unfoldable pub collect : ℕ → Iterator → Result ⊥ (List RowEntry)
collect zero it = ok []
collect (suc fuel) it = do
  (it', e) ← next_entry it
  let rest = collect fuel it'
  elim e [ none ↦ ok [] | some x ↦ do xs ← rest; ok (x ∷ xs) ]
