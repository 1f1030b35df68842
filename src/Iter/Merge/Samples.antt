-- ===== src/Iter/Merge/Samples.antt =====
-- Merges of two and three given lists of entries.
use slatedb_go.Prelude.{ℕ, ◌≡◌, refl, tt, arith, List, [], ◌∷◌, true}
use slatedb_go.Prelude.Bytes.{Bytes, compare_bytes, lt_bytes}
use slatedb_go.Prelude.Result.{ok}
use slatedb_go.Types.{RowEntry, kind_key_value}
use slatedb_go.Types.Warn
use slatedb_go.Iter.{
  EntryIterator, new_entry_iterator, entry_next, entry_iterator, finite_entry_iterator, add, len,
}
use slatedb_go.Iter.Merge.{
  next_entry, collect, new_merge_sort, fill, push, set, least, less, compare_items, advance,
  advanced,
}
use slatedb_go.Iter.Merge.Streams.{find, first, IsAscending, Above}
use slatedb_go.Iter.Merge.Sorts.{merge_sort_lem}

abbrev entry : ℕ → ℕ → RowEntry
entry k v = record { key = k ∷ []; value = record { value = v ∷ []; kind = kind_key_value } }

abbrev newer : EntryIterator
newer = record { entries = entry 2 20 ∷ entry 5 50 ∷ []; index = 0 }

abbrev older : EntryIterator
older = record { entries = entry 1 11 ∷ entry 2 21 ∷ entry 2 22 ∷ []; index = 0 }

runs :
    collect entry_iterator 9 (new_merge_sort entry_iterator (newer ∷ older ∷ []))
    ≡ ok (entry 1 11 ∷ entry 2 20 ∷ entry 5 50 ∷ [])
unfolding collect next_entry new_merge_sort fill push set least less compare_items advance advanced
    compare_bytes entry_next Warn.merge
runs = refl

-- The key 2 is in both lists and twice in the second; the first list has it in the output.
merge_sort_lem_example :
    (out : List RowEntry) × (collect entry_iterator 6
        (new_merge_sort entry_iterator (newer ∷ older ∷ []))
      ≡ ok out)
    × IsAscending out
    × Above [] out
    × ((k : Bytes)
        → lt_bytes [] k ≡ true
        → find k out ≡ first k (newer.entries ∷ older.entries ∷ []))
unfolding compare_bytes
merge_sort_lem_example =
    merge_sort_lem entry_iterator finite_entry_iterator 6 (newer ∷ older ∷ [])
      (((refl, tt), (tt, tt)), (((refl, (refl, tt)), ((refl, tt), (tt, tt))), tt)) (omega arith)

-- An entry with an empty key is passed over: it equals the key that the merge starts with.
empty_key :
    collect entry_iterator 9 (
      new_merge_sort entry_iterator
        (new_entry_iterator (record (entry 2 3) { key = [] } ∷ []) ∷ []))
    ≡ ok []
unfolding collect next_entry new_merge_sort fill push set least less compare_items advance advanced
    compare_bytes entry_next Warn.merge new_entry_iterator
empty_key = refl

built :
    (add (add (new_entry_iterator []) (1 ∷ []) (2 ∷ [])) (3 ∷ []) (4 ∷ [])).entries
    ≡ entry 1 2 ∷ entry 3 4 ∷ []
unfolding add new_entry_iterator
built = refl

measured : len newer ≡ 2
unfolding len
measured = refl
