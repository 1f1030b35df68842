-- ===== src/Sst/FirstBlock/Samples.antt =====
-- The binary search in an index of three blocks.
use slatedb_go.Prelude.{zero, suc, ◌≡◌, refl, arith, List, [], ◌∷◌}
use slatedb_go.Prelude.Bytes.{compare_bytes}
use slatedb_go.Sst.FirstBlock.{
  BlockMeta, key_at, IsIndex, IsFirstBlock, first_block, block_loop, first_block_lem,
}

abbrev index : List BlockMeta
index =
    record { offset = 0; first_key = 10 ∷ [] }
    ∷ record { offset = 90; first_key = 20 ∷ [] }
    ∷ record { offset = 180; first_key = 20 ∷ 5 ∷ [] }
    ∷ []

index-IsIndex : IsIndex index
unfolding key_at compare_bytes
index-IsIndex zero zero lt b = absurd (omega arith)
index-IsIndex zero (suc zero) lt b = refl
index-IsIndex zero (suc (suc zero)) lt b = refl
index-IsIndex (suc zero) (suc (suc zero)) lt b = refl
index-IsIndex (suc zero) zero lt b = absurd (omega arith)
index-IsIndex (suc zero) (suc zero) lt b = absurd (omega arith)
index-IsIndex (suc (suc i)) zero lt b = absurd (omega arith)
index-IsIndex (suc (suc i)) (suc zero) lt b = absurd (omega arith)
index-IsIndex (suc (suc i)) (suc (suc zero)) lt b = absurd (omega arith)
index-IsIndex i (suc (suc (suc j))) lt b = absurd (omega arith)

found : first_block index (20 ∷ 4 ∷ []) ≡ 1
unfolding first_block block_loop key_at compare_bytes
found = refl

first_block_lem_example : IsFirstBlock index (20 ∷ 4 ∷ []) (first_block index (20 ∷ 4 ∷ []))
first_block_lem_example = first_block_lem index (20 ∷ 4 ∷ []) index-IsIndex
