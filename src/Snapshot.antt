-- ===== src/Snapshot.antt =====
-- CoreStateSnapshot of slatedb/state/db_state.go, the state that the manifest carries between the
-- writer and the compactor. Its atomic counters are numbers; a CoreDBState has the same fields.
use slatedb_go.Prelude.{ℕ, ◌≡◌, refl, ap, ap₂, Option, none, [], ◌∷◌, List, map, All}
use slatedb_go.Sst.{Ulid, Ulids, IsFaithful, Handle, IsMade, clone_handle, clone_handle_made}
use slatedb_go.SortedRun.{SortedRun, clone_run}

pub record Snapshot : Type 0 where
  pub l0_last_compacted : Option Ulid
  pub l0 : List Handle
  pub compacted : List SortedRun
  pub next_wal_sst_id : ℕ
  pub last_compacted_wal_sst_id : ℕ

-- NewCoreDBState
abbrev pub new_core : Snapshot
new_core = record {
  l0_last_compacted = none;
  l0 = [];
  compacted = [];
  next_wal_sst_id = 1;
  last_compacted_wal_sst_id = 0;
}

-- Every handle and every run is cloned.
unfoldable pub clone : Ulids → Snapshot → Snapshot
clone u s = record s { l0 = map (clone_handle u) s.l0; compacted = map (clone_run u) s.compacted }

-- CoreStateSnapshot.ToCoreState and CoreDBState.Snapshot, between the two records with the same fields.
unfoldable pub to_core_state : Ulids → Snapshot → Snapshot
to_core_state u s = clone u s

unfoldable pub take_snapshot : Ulids → Snapshot → Snapshot
take_snapshot u c = record c {
  l0 = map (clone_handle u) c.l0;
  compacted = map (clone_run u) c.compacted;
}

-- The ids of all tables were made by the constructors of ids.
pub record IsMadeOf (u : Ulids) (s : Snapshot) : Type 0 where
  pub level : All (λ h. IsMade u h.id) s.l0
  pub runs : All (λ (r : SortedRun). All (λ h. IsMade u h.id) r.sst_list) s.compacted

map_handles :
    (u : Ulids) (f : IsFaithful u) (l : List Handle)
    → All (λ h. IsMade u h.id) l
    → map (clone_handle u) l ≡ l
map_handles u f [] m = refl
map_handles u f (h ∷ l) m = ap₂ ◌∷◌ (clone_handle_made u f h m.0) (map_handles u f l m.1)

map_runs :
    (u : Ulids) (f : IsFaithful u) (l : List SortedRun)
    → All (λ (r : SortedRun). All (λ h. IsMade u h.id) r.sst_list) l
    → map (clone_run u) l ≡ l
unfolding clone_run
map_runs u f [] m = refl
map_runs u f (r ∷ l) m =
    ap₂ ◌∷◌ (ap (λ t. record { id = r.id; sst_list = t }) (map_handles u f r.sst_list m.0))
      (map_runs u f l m.1)

-- A snapshot of tables whose ids were made by the constructors of ids is cloned to itself: the trip
-- of every id through its text loses nothing.
pub clone_made : (u : Ulids) (f : IsFaithful u) (s : Snapshot) → IsMadeOf u s → clone u s ≡ s
unfolding clone
clone_made u f s m =
    ap₂ (λ a b. record s { l0 = a; compacted = b }) (map_handles u f s.l0 m.level)
      (map_runs u f s.compacted m.runs)
