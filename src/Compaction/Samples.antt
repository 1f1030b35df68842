-- ===== src/Compaction/Samples.antt =====
-- The theorems on compactions at a compactor with two runs and four tables at level 0.
use slatedb_go.Prelude.{
  true, ℕ, ◌⊎◌, ◌<◌, ◌≤◌, ◌≡◌, ◌≢◌, refl, tt, arith, true, false, none, some, List, [], ◌∷◌, ◌++◌,
  All,
}
use slatedb_go.Prelude.Result.{ok}
use slatedb_go.Decimal.{format20, digits, atoi_value, scan_value}
use slatedb_go.Sst.{
  Handle, table, plain_ulids, plain_ulids-IsFaithful, made_compacted, compacted_id,
}
use slatedb_go.SortedRun.{SortedRun}
use slatedb_go.Snapshot.{Snapshot, IsMadeOf, clone, clone_made}
use slatedb_go.Compaction.{
  Compaction, CompactorState, submit_compaction, finish_compaction, maybe_schedule_compaction,
  refresh_db_state, new_source_sst, place_run, lookup, next_run_id, sorted_run_id,
  check_destination, one_source_matches, matches, assign, delete, in_id_order,
}
use slatedb_go.Compaction.Order.{remaining, place_run_lem}
use slatedb_go.Compaction.WellFormed.{
  WellFormed, submit_compaction-WellFormed, submit_compaction_lem,
}
use slatedb_go.Compaction.Finish.{finish_compaction-WellFormed}
use slatedb_go.Compaction.Schedule.{finish_compaction-scheduled}
use slatedb_go.Compaction.Refresh.{IsEnd, refresh_db_state-WellFormed}

abbrev level : List Handle
level =
    table (1 ∷ []) (4 ∷ [])
    ∷ table (2 ∷ []) (3 ∷ [])
    ∷ table (1 ∷ []) (2 ∷ [])
    ∷ table (5 ∷ []) (1 ∷ [])
    ∷ []

abbrev runs : List SortedRun
runs =
    record { id = 2; sst_list = table (1 ∷ []) (9 ∷ []) ∷ [] }
    ∷ record { id = 0; sst_list = [] }
    ∷ []

abbrev snapshot : Snapshot
snapshot = record {
  l0_last_compacted = none;
  l0 = level;
  compacted = runs;
  next_wal_sst_id = 7;
  last_compacted_wal_sst_id = 6;
}

abbrev state : CompactorState
state = record { db_state = snapshot; compactions = [] }

made : IsMadeOf plain_ulids snapshot
made = record {
  level = (
    made_compacted (4 ∷ []) refl,
    (
      made_compacted (3 ∷ []) refl,
      (made_compacted (2 ∷ []) refl, (made_compacted (1 ∷ []) refl, tt)),
    ),
  );
  runs = ((made_compacted (9 ∷ []) refl, tt), (tt, tt));
}

state-WellFormed : WellFormed plain_ulids state
unfolding in_id_order
state-WellFormed = record {
  made = made;
  level = ((4 ∷ [], refl), ((3 ∷ [], refl), ((2 ∷ [], refl), ((1 ∷ [], refl), tt))));
  ordered = refl;
  entries = tt;
}

clone_made_example : clone plain_ulids snapshot ≡ snapshot
clone_made_example = clone_made plain_ulids plain_ulids-IsFaithful snapshot made

finish_compaction-scheduled_example :
    (c : Compaction) × (t : CompactorState) × (maybe_schedule_compaction plain_ulids state
      ≡ ok (c ∷ []))
    × (submit_compaction state c ≡ ok t)
    × (finish_compaction plain_ulids t (record { id = c.destination; sst_list = [] })
        ≡ ok (record {
          db_state = record snapshot {
            l0 = [];
            compacted = record { id = c.destination; sst_list = [] } ∷ runs;
            l0_last_compacted = compacted_id plain_ulids (table (1 ∷ []) (4 ∷ [])).id;
          };
          compactions = [];
        }))
unfolding next_run_id lookup
finish_compaction-scheduled_example =
    finish_compaction-scheduled plain_ulids plain_ulids-IsFaithful state (table (1 ∷ []) (4 ∷ []))
      (table (2 ∷ []) (3 ∷ []) ∷ table (1 ∷ []) (2 ∷ []) ∷ table (5 ∷ []) (1 ∷ []) ∷ []) []
      state-WellFormed refl (omega arith) refl (omega arith)

-- The run 2 and one table of level 0 are compacted into the run 2.
abbrev merge_two : Compaction
merge_two = record {
  sources =
      new_source_sst plain_ulids (1 ∷ []) ∷ record { typ = sorted_run_id; value = format20 2 } ∷ [];
  destination = 2;
}

abbrev waiting : CompactorState
waiting = record { db_state = snapshot; compactions = (2, merge_two) ∷ [] }

submitted : submit_compaction state merge_two ≡ ok waiting
unfolding submit_compaction lookup check_destination one_source_matches matches assign delete
    new_source_sst atoi_value scan_value format20 digits
submitted = refl

submit_compaction_lem_example :
    WellFormed plain_ulids waiting
    × (lookup 2 state.compactions ≡ none)
    × All (λ (r : SortedRun). (r.id ≢ 2) ⊎ (one_source_matches merge_two.sources 2 ≡ true)) runs
    × (lookup 2 waiting.compactions ≡ some merge_two)
    × ((j : ℕ) → j ≢ 2 → lookup j waiting.compactions ≡ lookup j state.compactions)
    × (waiting.db_state ≡ state.db_state)
submit_compaction_lem_example =
    submit_compaction_lem plain_ulids state waiting merge_two state-WellFormed (λ q. cc) submitted

abbrev output : SortedRun
output = record { id = 2; sst_list = table (1 ∷ []) (8 ∷ []) ∷ [] }

waiting-WellFormed : WellFormed plain_ulids waiting
waiting-WellFormed =
    submit_compaction-WellFormed plain_ulids state waiting merge_two state-WellFormed (λ q. cc)
      submitted

finish_compaction-WellFormed_example :
    (t : CompactorState) × (finish_compaction plain_ulids waiting output ≡ ok t)
    × WellFormed plain_ulids t
    × (lookup 2 t.compactions ≡ none)
finish_compaction-WellFormed_example =
    finish_compaction-WellFormed plain_ulids plain_ulids-IsFaithful waiting output
      waiting-WellFormed (omega arith) (made_compacted (8 ∷ []) refl, tt)

place_run_lem_example :
    (front : List SortedRun) × (back : List SortedRun) × (remaining (2 ∷ 2 ∷ []) runs
      ≡ front ++ back)
    × (place_run output (2 ∷ 2 ∷ []) false runs ≡ front ++ output ∷ back)
    × All (λ (r : SortedRun). 2 < r.id) front
    × All (λ (r : SortedRun). r.id ≤ 2) back
unfolding in_id_order
place_run_lem_example = place_run_lem output (2 ∷ 2 ∷ []) 3 runs refl

-- The writer has one table more, and has not yet dropped those that were compacted.
abbrev compacted_once : CompactorState
compacted_once = record state {
  db_state = record snapshot { l0_last_compacted = some (3 ∷ []); l0 = [] };
}

compacted_once-WellFormed : WellFormed plain_ulids compacted_once
unfolding in_id_order
compacted_once-WellFormed = record {
  made = record { level = tt; runs = made.runs };
  level = tt;
  ordered = refl;
  entries = tt;
}

refresh_db_state-WellFormed_example :
    (t : CompactorState) × (stale : List Handle) × (refresh_db_state plain_ulids compacted_once
        snapshot
      ≡ ok t)
    × (level ≡ t.db_state.l0 ++ stale)
    × All (λ h. compacted_id plain_ulids h.id ≢ some (3 ∷ [])) t.db_state.l0
    × IsEnd plain_ulids (some (3 ∷ [])) stale
    × (t.db_state.compacted ≡ runs)
    × (t.db_state.l0_last_compacted ≡ some (3 ∷ []))
    × WellFormed plain_ulids t
refresh_db_state-WellFormed_example =
    refresh_db_state-WellFormed plain_ulids plain_ulids-IsFaithful compacted_once snapshot
      compacted_once-WellFormed state-WellFormed.level
