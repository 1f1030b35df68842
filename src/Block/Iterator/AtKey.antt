-- ===== src/Block/Iterator/AtKey.antt =====
-- NewIteratorAtKey of internal/sstable/block/iterator.go. The search of package sort is written out, since
-- its test adds warnings.
pub mod Border
mod Samples
use slatedb_go.Prelude.{
  ℕ, zero, suc, ◌+◌, ◌-◌, ◌/◌, ◌%◌, ◌^◌, Bool, false, Option, none, some, List, [], ◌∷◌, ◌++◌,
  length, get_elem?, ltb, ◌==◌, if◌then◌else◌,
}
use slatedb_go.Prelude.Bytes.{Bytes, equal_bytes, le_bytes}
use slatedb_go.Prelude.Result.{Result, ok, err, panic, ◌>>=◌, widen}
use slatedb_go.Row
use slatedb_go.Row.{Row, RowError, v0_full_key}
use slatedb_go.Block.{Block}
use slatedb_go.Block.Iterator.{
  Warning, peeking_first, no_full_key, out_of_bounds, peeking, Iterator, slice_from,
}

-- The block has no offsets, no full key, or only warnings.
pub data AtKeyError : Type 0 where
  no_offsets no_key : AtKeyError
  warned : List Warning → AtKeyError

-- The loop over the offsets from `i` on.
pub first_full_key : Bytes → ℕ → List ℕ → List Warning → Result ⊥ (List Warning × Option (Row × ℕ))
first_full_key rows i [] warn = ok (warn ++ no_full_key ∷ [], none)
first_full_key rows i (o ∷ os) warn = slice_from o rows λ bs. elim (Row.peek_at_key bs []) [
  | panic ↦ panic
  | err e ↦ first_full_key rows (i + 1) os (warn ++ peeking_first o e ∷ [])
  | ok r ↦
      if r.key_prefix_len == 0 then ok (warn, some (r, i)) else first_full_key rows (i + 1) os warn
]

-- The test at an index whose offset is known.
pub test_key : Block → Bytes → Bytes → ℕ → ℕ → List Warning → Result ⊥ (List Warning × Bool)
test_key b key first i offset warn =
    if ltb (length b.rows % 2 ^ 16) offset
    then ok (warn ++ out_of_bounds i offset ∷ [], false)
    else slice_from offset b.rows λ bs. elim (Row.peek_at_key bs first) [
      | panic ↦ panic
      | err e ↦ ok (warn ++ peeking i e ∷ [], false)
      | ok p ↦ do full ← v0_full_key p first; ok (warn, le_bytes key full)
    ]

pub key_reached : Block → Bytes → Bytes → ℕ → List Warning → Result ⊥ (List Warning × Bool)
key_reached b key first i warn = elim (get_elem? b.offsets i) [
  | none ↦ panic
  | some o ↦ test_key b key first i o warn
]

-- sort.Search; each round shortens the range from `i` to `j`.
pub search_keys : ℕ → Block → Bytes → Bytes → ℕ → ℕ → ℕ → List Warning → Result ⊥ (List Warning × ℕ)
search_keys zero b key first idx i j warn = ok (warn, i)
search_keys (suc fuel) b key first idx i j warn =
    let h = (i + j) / 2 in
    if ltb i j
    then (do
      (w, t) ← key_reached b key first (h + idx) warn
      let left = search_keys fuel b key first idx i h w
      let right = search_keys fuel b key first idx (h + 1) j w
      if t then left else right)
    else ok (warn, i)

-- What is done once the first full key is known, or not.
pub at_key : Block → Bytes → List Warning × Option (Row × ℕ) → Result AtKeyError Iterator
at_key b key ([], none) = err no_key
at_key b key (w ∷ ws, none) = err (warned (w ∷ ws))
at_key b key (warn, some (first, idx)) =
    if equal_bytes first.key_suffix key
    then ok (record { block = b; offset_index = 0; warn = warn; first_key = some first.key_suffix })
    else do
      let n = length b.offsets - idx
      (w, i) ← widen (search_keys n b key first.key_suffix idx 0 n warn)
      ok (record { block = b; offset_index = i + idx; warn = w; first_key = some first.key_suffix })

-- NewIteratorAtKey
pub new_iterator_at_key : Block → Bytes → Result AtKeyError Iterator
new_iterator_at_key b key =
    if length b.offsets == 0
    then err no_offsets
    else do found ← widen (first_full_key b.rows 0 b.offsets []); at_key b key found
