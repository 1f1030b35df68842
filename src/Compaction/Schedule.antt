-- ===== src/Compaction/Schedule.antt =====
-- The way of a compaction through slatedb/compaction: maybeScheduleCompaction
-- (size_tiered_compaction.go), SubmitCompaction and FinishCompaction (state.go).
use slatedb_go.Prelude.{
  ◌≤◌, ◌<◌, ◌≡◌, ◌≢◌, refl, sym, ap, ◌∙◌, arith, true, false, Option, none, some, List, [], ◌∷◌,
  ◌++◌, map, All, length, ltb,
}
use slatedb_go.Prelude.Result.{ok}
use slatedb_go.Sst.{
  Ulid, Ulids, IsFaithful, Handle, compacted_id, or_zero_ulid, compacted_id-new_id_compacted,
}
use slatedb_go.SortedRun.{SortedRun}
use slatedb_go.Compaction.{
  Compaction, SourceId, CompactorState, sst_id, lookup, assign, delete, max_uint32, contains_run,
  contains_ulid, source_ssts, source_runs, source_sst_id, new_source_sst, place_run, in_id_order,
  check_destination, submit_compaction, finish_compaction, l0_sources, next_run_id,
  maybe_schedule_compaction, CompactionError, ongoing_compaction,
}
use slatedb_go.Compaction.WellFormed.{WellFormed, IsLevel, IsEntry, remaining_l0, All-delete}
use slatedb_go.Compaction.Finish.{finish_lem, finished, newest, taken}
use slatedb_go.Compaction.NewRun.{
  check_destination-in_id_order, place_run-newest, in_id_order-next_run_id, contains_ulid-append,
  append-snoc, delete-assign, lookup-assign,
}

module _ (u : Ulids) (f : IsFaithful u) where
  ids : List Handle → List Ulid
  ids [] = []
  ids (h ∷ l) = or_zero_ulid (compacted_id u h.id) ∷ ids l

  level_id : (h : Handle) (x : IsLevel u h) → compacted_id u h.id ≡ some x.0
  level_id h (x, e) = rw e (compacted_id-new_id_compacted u f x)

  l0_sources-level :
      (l : List Handle) → All (IsLevel u) l → l0_sources u l ≡ ok (map (new_source_sst u) (ids l))
  unfolding l0_sources ids or_zero_ulid
  l0_sources-level [] m = refl
  l0_sources-level (h ∷ l) (x, m) =
      let id = level_id h x in rw (id, l0_sources) (rw (l0_sources-level l m) refl)

  pub source_sst_id-new : (x : Ulid) → source_sst_id u (new_source_sst u x) ≡ some x
  unfolding source_sst_id new_source_sst slatedb_go.Compaction.sst_id_of
  source_sst_id-new x = f.parse-to_string x

  source_ssts-map : (l : List Ulid) → source_ssts u (map (new_source_sst u) l) ≡ l
  unfolding source_ssts
  source_ssts-map [] = refl
  source_ssts-map (x ∷ l) =
      rw (source_sst_id-new x, source_ssts) (ap (λ t. x ∷ t) (source_ssts-map l))

  source_runs-map : (l : List Ulid) → source_runs u (map (new_source_sst u) l) ≡ []
  unfolding source_runs
  source_runs-map [] = refl
  source_runs-map (x ∷ l) = rw (source_sst_id-new x, source_runs) (source_runs-map l)

  remaining_l0-ids : (front : List Ulid) (l : List Handle) → remaining_l0 u (front ++ ids l) l ≡ []
  unfolding ids remaining_l0
  remaining_l0-ids front [] = refl
  remaining_l0-ids front (h ∷ l) =
      let x = or_zero_ulid (compacted_id u h.id) in
      let here = contains_ulid-append front x (ids l) in
      let rest : remaining_l0 u (front ++ x ∷ ids l) l ≡ [] =
        rw (append-snoc front x (ids l)) (remaining_l0-ids (front ++ x ∷ []) l) in
      rw here rest

  -- The compaction of all tables of level 0 into a new run in front of the others.
  pub scheduled : CompactorState → Compaction
  scheduled s = record {
    sources = map (new_source_sst u) (ids s.db_state.l0);
    destination = next_run_id s.db_state.compacted;
  }

  pub maybe_schedule_compaction_lem :
      (s : CompactorState)
      → WellFormed u s
      → 4 ≤ length s.db_state.l0
      → maybe_schedule_compaction u s ≡ ok (scheduled s ∷ [])
  unfolding maybe_schedule_compaction scheduled
  maybe_schedule_compaction_lem s w long =
      let enough : ltb (length s.db_state.l0) 4 ≡ false = ground (arith, long) in
      rw enough (rw (l0_sources-level s.db_state.l0 w.level) refl)

  submit_compaction-scheduled :
      (s : CompactorState)
      → WellFormed u s
      → lookup (next_run_id s.db_state.compacted) s.compactions ≡ none
      → submit_compaction s (scheduled s)
        ≡ ok (record s {
          compactions = assign (next_run_id s.db_state.compacted) (scheduled s) s.compactions;
        })
  unfolding submit_compaction scheduled
  submit_compaction-scheduled s w free =
      let order = in_id_order-next_run_id s.db_state.compacted w.ordered in
      let new = check_destination-in_id_order s.db_state.compacted (scheduled s) order in
      rw (free, submit_compaction) (rw new refl)

  newest-sources :
      (h : Handle) (l : List Handle) (old : Option Ulid) (tables : List Handle)
      → tables ≡ h ∷ l
      → All (IsLevel u) tables
      → newest u f old (map (new_source_sst u) (ids tables)) ≡ compacted_id u h.id
  unfolding newest ids or_zero_ulid
  newest-sources h l old [] e m = absurd (cc)
  newest-sources h l old (g ∷ k) e (x, m) =
      let same : g ≡ h = cc in
      let id = level_id g x in rw (sym same) (rw id (rw (source_sst_id-new x.0) refl))

  sources_nonempty :
      (h : Handle) (l tables : List Handle)
      → tables ≡ h ∷ l
      → map (new_source_sst u) (ids tables) ≢ []
  unfolding ids
  sources_nonempty h l [] e q = absurd (cc)
  sources_nonempty h l (g ∷ k) e q = absurd (cc)

  submitted : CompactorState → CompactorState
  submitted s = record s {
    compactions = assign (next_run_id s.db_state.compacted) (scheduled s) s.compactions;
  }

  submitted-WellFormed :
      (s : CompactorState)
      → WellFormed u s
      → (scheduled s).sources ≢ []
      → WellFormed u (submitted s)
  unfolding submitted scheduled assign
  submitted-WellFormed s w h = record {
    made = w.made;
    level = w.level;
    ordered = w.ordered;
    entries =
        ((refl, h), All-delete IsEntry (next_run_id s.db_state.compacted) s.compactions w.entries);
  }

  finished-submitted :
      (s : CompactorState) (h : Handle) (l : List Handle) (out : SortedRun)
      → WellFormed u s
      → s.db_state.l0 ≡ h ∷ l
      → lookup (next_run_id s.db_state.compacted) s.compactions ≡ none
      → out.id ≡ next_run_id s.db_state.compacted
      → finished u f (submitted s) out (scheduled s) ≡ (record {
        db_state = record s.db_state {
          l0 = [];
          compacted = out ∷ s.db_state.compacted;
          l0_last_compacted = compacted_id u h.id;
        };
        compactions = s.compactions;
      })
  unfolding finished taken submitted scheduled
  finished-submitted s h l out w first free same =
      let sources = ids s.db_state.l0 in
      let order : in_id_order out.id s.db_state.compacted ≡ true =
        rw same (in_id_order-next_run_id s.db_state.compacted w.ordered) in
      let last = newest-sources h l s.db_state.l0_last_compacted s.db_state.l0 first w.level in
      let level = remaining_l0-ids [] s.db_state.l0 in
      let placed = place_run-newest out s.db_state.compacted order in
      let d = next_run_id s.db_state.compacted in
      let entries : delete out.id (assign d (scheduled s) s.compactions) ≡ s.compactions =
        rw same (delete-assign d (scheduled s) s.compactions free) in
      rw (last, source_ssts-map sources, source_runs-map sources, level, entries, sym same, placed)
        refl

  -- A well-formed compactor with at least four tables at level 0, none of whose compactions has the next
  -- run id, which is below the largest: the scheduler asks for one compaction, it is accepted, and
  -- when its output comes, whatever its tables, level 0 is empty, the output stands in front of the
  -- other runs, the newest table is the one that was compacted last, and the compactions are as before.
  pub finish_compaction-scheduled :
      (s : CompactorState) (h : Handle) (l tables : List Handle)
      → WellFormed u s
      → s.db_state.l0 ≡ h ∷ l
      → 4 ≤ length s.db_state.l0
      → lookup (next_run_id s.db_state.compacted) s.compactions ≡ none
      → next_run_id s.db_state.compacted < max_uint32
      → (c : Compaction) × (t : CompactorState) × (maybe_schedule_compaction u s ≡ ok (c ∷ []))
        × (submit_compaction s c ≡ ok t)
        × (finish_compaction u t (record { id = c.destination; sst_list = tables })
            ≡ ok (record {
              db_state = record s.db_state {
                l0 = [];
                compacted = record { id = c.destination; sst_list = tables } ∷ s.db_state.compacted;
                l0_last_compacted = compacted_id u h.id;
              };
              compactions = s.compactions;
            }))
  unfolding finish_compaction scheduled submitted
  finish_compaction-scheduled s h l tables w first long free small =
      let d = next_run_id s.db_state.compacted in
      let out : SortedRun = record { id = d; sst_list = tables } in
      let waits : lookup d (assign d (scheduled s) s.compactions) ≡ some (scheduled s) =
        lookup-assign d (scheduled s) s.compactions in
      let nonempty : map (new_source_sst u) (ids s.db_state.l0) ≢ [] =
        sources_nonempty h l s.db_state.l0 first in
      let done =
        finish_lem u f (submitted s) out (scheduled s) (submitted-WellFormed s w nonempty) small
          refl nonempty in
      (
        scheduled s,
        submitted s,
        maybe_schedule_compaction_lem s w long,
        submit_compaction-scheduled s w free,
        rw (waits, finish_compaction)
            (done ∙ ap ok (finished-submitted s h l out w first free refl)),
      )
