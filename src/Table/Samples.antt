-- ===== src/Table/Samples.antt =====
-- The theorems on in-memory tables, with a map made of a list.
use slatedb_go.Prelude.{◌+◌, ◌≡◌, some, [], ◌∷◌, length, if◌then◌else◌}
use slatedb_go.Prelude.Bytes.{Bytes, equal_bytes}
use slatedb_go.Prelude.Result.{ok}
use slatedb_go.Types.{RowEntry, to_bytes, to_value}
use slatedb_go.Table.{KvTable, new_table, get, put, clone}
use slatedb_go.Table.Put.{IsTable, new_table-IsTable, put_lem}
use slatedb_go.Table.Clone.{get-clone}
use slatedb_go.Table.Listed.{Listed, listed, listed-IsOrderedMap}

abbrev entry : RowEntry
entry = record { key = 3 ∷ []; value = record { value = 8 ∷ 9 ∷ []; kind = 0 } }

put_lem_example :
    (u : KvTable Listed) × (put listed (new_table listed) entry
      ≡ ok (u, length entry.key + length (to_bytes entry.value)))
    × IsTable listed u
    × ((k : Bytes)
        → get listed u k ≡ (
            if equal_bytes entry.key k
            then ok (some (to_value entry.value))
            else get listed (new_table listed) k))
put_lem_example =
    put_lem listed listed-IsOrderedMap (new_table listed) entry
      (new_table-IsTable listed listed-IsOrderedMap)

get-clone_example :
    get listed (clone listed put_lem_example.0) (3 ∷ []) ≡ get listed put_lem_example.0 (3 ∷ [])
get-clone_example = get-clone listed listed-IsOrderedMap put_lem_example.0 (3 ∷ [])
