-- ===== src/SortedRun.antt =====
-- slatedb/compacted/sortedrun.go: a sorted run and the choice of the table that may hold a key.
pub mod Covering
mod Samples
use slatedb_go.Prelude.{
  ℕ, zero, suc, ◌+◌, ◌-◌, ◌≤◌, ◌<◌, ◌≡◌, ◌≢◌, refl, arith, Bool, true, false, Option, none, some,
  List, [], ◌∷◌, length, map, ltb, ◌==◌, if◌then◌else◌, get_elem?, Bool-cases, inl, inr, All,
}
use slatedb_go.Prelude.Bytes.{Bytes, lt_bytes, gt_bytes, lt_bytes_trans, compare_bytes_swap}
use slatedb_go.Prelude.Result.{Result, ok, panic, ◌>>=◌}
use slatedb_go.Search.{search, search_lem, IsBorder}
use slatedb_go.Sst.{Handle, Ulids, clone_handle}

pub record SortedRun : Type 0 where
  pub id : ℕ
  pub sst_list : List Handle

-- The test of the search; a table without a first key fails the assertion.
after_key : Bytes → Option Handle → Result ⊥ Bool
after_key key none = panic
after_key key (some h) =
    if length h.info.first_key == 0 then panic else ok (gt_bytes h.info.first_key key)

pub index_of_sst_with_key : SortedRun → Bytes → Result ⊥ (Option ℕ)
index_of_sst_with_key s key = do
  index ← search (length s.sst_list) (λ i. after_key key (get_elem? s.sst_list i))
  ok (if ltb 0 index then some (index - 1) else none)

handle_at : List Handle → Option ℕ → Result ⊥ (Option Handle)
handle_at l none = ok none
handle_at l (some i) = elim (get_elem? l i) [ none ↦ panic | some h ↦ ok (some h) ]

pub sst_with_key : SortedRun → Bytes → Result ⊥ (Option Handle)
sst_with_key s key = do index ← index_of_sst_with_key s key; handle_at s.sst_list index

-- Every table is cloned.
unfoldable pub clone_run : Ulids → SortedRun → SortedRun
clone_run u s = record { id = s.id; sst_list = map (clone_handle u) s.sst_list }

-- The tables have first keys, and these grow.
pub data IsOrdered : List Handle → Type 0 where
  none_left : IsOrdered []
  one_left : (h : Handle) → h.info.first_key ≢ [] → IsOrdered (h ∷ [])
  grows :
      {h g : Handle} {l : List Handle}
      → h.info.first_key ≢ []
      → lt_bytes h.info.first_key g.info.first_key ≡ true
      → IsOrdered (g ∷ l)
      → IsOrdered (h ∷ g ∷ l)

-- The first keys, with an empty key behind the last.
first_key_at : List Handle → ℕ → Bytes
first_key_at [] i = []
first_key_at (h ∷ l) zero = h.info.first_key
first_key_at (h ∷ l) (suc i) = first_key_at l i
