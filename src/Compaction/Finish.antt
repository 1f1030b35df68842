-- ===== src/Compaction/Finish.antt =====
-- FinishCompaction and RefreshDBState of slatedb/compaction/state.go on well-formed states.
use slatedb_go.Prelude.{
  ℕ, ◌<◌, ◌≡◌, ◌≢◌, refl, sym, true, false, Option, none, some, List, [], ◌∷◌, All, Option-cases,
  inl, inr, ==-refl,
}
use slatedb_go.Prelude.Result.{ok}
use slatedb_go.Sst.{
  Ulid, Ulids, IsFaithful, Handle, IsMade, compacted_id, or_zero_ulid,
  compacted_id-new_id_compacted,
}
use slatedb_go.SortedRun.{SortedRun}
use slatedb_go.Snapshot
use slatedb_go.Snapshot.{Snapshot, IsMadeOf, clone_made}
use slatedb_go.Compaction.{
  Compaction, SourceId, CompactorState, lookup, delete, max_uint32, contains_run, source_ssts,
  source_runs, keep_l0, place_run, in_id_order, last_compacted, source_sst_id, finish,
  finish_compaction,
}
use slatedb_go.Compaction.Order.{in_id_order-place_run}
use slatedb_go.Compaction.WellFormed.{
  WellFormed, IsLevel, IsEntry, remaining_l0, All-remaining_l0, All-place_run, All-delete,
  lookup-entry, lookup-delete,
}

module _ (u : Ulids) (f : IsFaithful u) where
  keep_l0_level :
      (gone : List Ulid) (l : List Handle)
      → All (IsLevel u) l
      → keep_l0 u gone l ≡ ok (remaining_l0 u gone l)
  unfolding keep_l0 remaining_l0 or_zero_ulid
  keep_l0_level gone [] m = refl
  keep_l0_level gone (h ∷ l) ((x, e), m) =
      let id : compacted_id u h.id ≡ some x = rw e (compacted_id-new_id_compacted u f x) in
      rw (id, keep_l0) (rw (keep_l0_level gone l m))

  abbrev pub last_compacted_of : Option Ulid → Option Ulid → Option Ulid
  last_compacted_of old none = old
  last_compacted_of old (some x) = some x

  -- What the first source makes of the table that was compacted last.
  unfoldable pub newest : Option Ulid → List SourceId → Option Ulid
  newest old [] = old
  newest old (s ∷ l) = last_compacted_of old (source_sst_id u s)

  last_compacted-newest :
      (old : Option Ulid) (l : List SourceId) → l ≢ [] → last_compacted u old l ≡ ok (newest old l)
  unfolding last_compacted newest
  last_compacted-newest old [] h = absurd (h refl)
  last_compacted-newest old (s ∷ l) h = elim (Option-cases (source_sst_id u s)) [
    | inl e ↦ rw (e, last_compacted) refl
    | inr (x, e) ↦ rw (e, last_compacted) refl
  ]

  -- The runs that a finished compaction takes away.
  unfoldable pub taken : Compaction → List ℕ
  taken c = c.destination ∷ source_runs u c.sources

  unfoldable pub finished : CompactorState → SortedRun → Compaction → CompactorState
  finished s out c = record {
    db_state = record s.db_state {
      l0 = remaining_l0 u (source_ssts u c.sources) s.db_state.l0;
      compacted = place_run out (taken c) false s.db_state.compacted;
      l0_last_compacted = newest s.db_state.l0_last_compacted c.sources;
    };
    compactions = delete out.id s.compactions;
  }

  contains_run-taken :
      (c : Compaction) (n : ℕ) → c.destination ≡ n → contains_run (taken c) n ≡ true
  unfolding contains_run taken
  contains_run-taken c n e = rw e (rw (==-refl n) refl)

  pub ordered_finish :
      (s : CompactorState) (out : SortedRun) (c : Compaction)
      → WellFormed u s
      → out.id < max_uint32
      → c.destination ≡ out.id
      → in_id_order max_uint32 (place_run out (taken c) false s.db_state.compacted) ≡ true
  ordered_finish s out c w small same =
      in_id_order-place_run out (taken c) max_uint32 s.db_state.compacted small
        (contains_run-taken c out.id same) w.ordered

  pub finish_lem :
      (s : CompactorState) (out : SortedRun) (c : Compaction)
      → WellFormed u s
      → out.id < max_uint32
      → c.destination ≡ out.id
      → c.sources ≢ []
      → finish u s out c ≡ ok (finished s out c)
  unfolding finish finished taken
  finish_lem s out c w small same some_source =
      let cloned : Snapshot.clone u s.db_state ≡ s.db_state = clone_made u f s.db_state w.made in
      let kept = keep_l0_level (source_ssts u c.sources) s.db_state.l0 w.level in
      let order : in_id_order max_uint32
            (place_run out (c.destination ∷ source_runs u c.sources) false s.db_state.compacted)
          ≡ true =
        ordered_finish s out c w small same in
      let last = last_compacted-newest s.db_state.l0_last_compacted c.sources some_source in
      rw cloned (rw kept (rw order (rw last refl)))

  finished-WellFormed :
      (s : CompactorState) (out : SortedRun) (c : Compaction)
      → WellFormed u s
      → out.id < max_uint32
      → c.destination ≡ out.id
      → All (λ h. IsMade u h.id) out.sst_list
      → WellFormed u (finished s out c)
  unfolding finished
  finished-WellFormed s out c w small same made = record {
    made = record {
      level =
          All-remaining_l0 u (λ h. IsMade u h.id) (source_ssts u c.sources) s.db_state.l0
            w.made.level;
      runs =
          All-place_run (λ r. All (λ h. IsMade u h.id) r.sst_list) out (taken c) false
            s.db_state.compacted made w.made.runs;
    };
    level = All-remaining_l0 u (IsLevel u) (source_ssts u c.sources) s.db_state.l0 w.level;
    ordered = ordered_finish s out c w small same;
    entries = All-delete IsEntry out.id s.compactions w.entries;
  }

  -- An output for which a compaction waits, made of tables with proper ids and below the largest id,
  -- is taken in without a panic, and the state stays well formed.
  pub finish_compaction-WellFormed :
      (s : CompactorState) (out : SortedRun)
      → WellFormed u s
      → out.id < max_uint32
      → All (λ h. IsMade u h.id) out.sst_list
      → (t : CompactorState) × (finish_compaction u s out ≡ ok t)
        × WellFormed u t
        × (lookup out.id t.compactions ≡ none)
  unfolding finish_compaction finished delete
  finish_compaction-WellFormed s out w small made =
      elim (Option-cases (lookup out.id s.compactions)) [
        | inl e ↦
            let done : finish_compaction u s out ≡ ok s = rw (e, finish_compaction) refl in
            (s, done, w, e)
        | inr (c, e) ↦
            let entry = lookup-entry IsEntry out.id s.compactions c w.entries e in
            let done : finish_compaction u s out ≡ ok (finished s out c) =
              rw (e, finish_compaction) (finish_lem s out c w small (sym entry.0) entry.1) in
            (
              finished s out c,
              done,
              finished-WellFormed s out c w small (sym entry.0) made,
              lookup-delete out.id s.compactions,
            )
      ]
