-- ===== src/SortedRun/Samples.antt =====
-- The choice of a table in a run of three tables.
use slatedb_go.Prelude.{◌≡◌, refl, [], ◌∷◌}
use slatedb_go.Prelude.Bytes.{compare_bytes}
use slatedb_go.Prelude.Result.{ok}
use slatedb_go.Sst.{Handle, table}
use slatedb_go.SortedRun.{SortedRun, IsOrdered, one_left, grows, sst_with_key}
use slatedb_go.SortedRun.Covering.{covering, sst_with_key-covering}

abbrev first : Handle
first = table (10 ∷ []) (1 ∷ [])

abbrev second : Handle
second = table (20 ∷ []) (2 ∷ [])

abbrev third : Handle
third = table (20 ∷ 5 ∷ []) (3 ∷ [])

abbrev run : SortedRun
run = record { id = 3; sst_list = first ∷ second ∷ third ∷ [] }

ordered : IsOrdered run.sst_list
unfolding compare_bytes
ordered =
    grows {h = first} {g = second} (λ q. cc) refl
      (grows {h = second} {g = third} (λ q. cc) refl (one_left third (λ q. cc)))

sst_with_key-covering_example :
    sst_with_key run (20 ∷ 4 ∷ []) ≡ ok (covering run.sst_list (20 ∷ 4 ∷ []))
sst_with_key-covering_example = sst_with_key-covering run (20 ∷ 4 ∷ []) ordered
