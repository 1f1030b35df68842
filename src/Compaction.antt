-- ===== src/Compaction.antt =====
-- slatedb/compaction: the state of the compactor (state.go), the compactions that it is given
-- (compactor.go) and the scheduler (size_tiered_compaction.go). Logging is left out.
pub mod Order
pub mod WellFormed
pub mod Finish
pub mod NewRun
pub mod Schedule
pub mod Refresh
mod Samples
use slatedb_go.Prelude.{
  ℕ, zero, suc, ◌+◌, ◌-◌, ◌%◌, ◌^◌, Bool, true, false, not, ◌&&◌, ◌||◌, Option, none, some, List,
  [], ◌∷◌, ◌++◌, length, ltb, leb, ◌==◌, if◌then◌else◌,
}
use slatedb_go.Prelude.Bytes.{Bytes, equal_bytes}
use slatedb_go.Prelude.Result.{Result, ok, err, panic, ◌>>=◌}
use slatedb_go.Decimal.{atoi, atoi_value}
use slatedb_go.Sst.{Ulid, Ulids, Handle, TableId, IdType, compacted, compacted_id, or_zero_ulid}
use slatedb_go.SortedRun.{SortedRun}
use slatedb_go.Snapshot
use slatedb_go.Snapshot.{Snapshot}

-- SourceIDType
pub data SourceType : Type 0 where
  sorted_run_id sst_id : SourceType

pub record SourceId : Type 0 where
  pub typ : SourceType
  pub value : Bytes

-- Compaction with its destination; the status is never read.
pub record Compaction : Type 0 where
  pub sources : List SourceId
  pub destination : ℕ

-- CompactorState; the map is an association list.
pub record CompactorState : Type 0 where
  pub db_state : Snapshot
  pub compactions : List (ℕ × Compaction)

pub new_compactor_state : Snapshot → CompactorState
new_compactor_state s = record { db_state = s; compactions = [] }

pub data CompactionError : Type 0 where
  ongoing_compaction destination_exists : CompactionError

-- Lookup, assignment and `delete` of a Go map with uint32 keys.
pub lookup : ℕ → List (ℕ × Compaction) → Option Compaction
lookup k [] = none
lookup k ((j, c) ∷ m) = if j == k then some c else lookup k m

pub delete : ℕ → List (ℕ × Compaction) → List (ℕ × Compaction)
delete k [] = []
delete k ((j, c) ∷ m) = let rest = delete k m in if j == k then rest else (j, c) ∷ rest

pub assign : ℕ → Compaction → List (ℕ × Compaction) → List (ℕ × Compaction)
assign k c m = (k, c) ∷ delete k m

-- SourceID.SortedRunID
run_id_of : SourceType → Bytes → Option ℕ
run_id_of sst_id value = none
run_id_of sorted_run_id value = elim (atoi value) [ none ↦ none | some n ↦ some (n % 2 ^ 32) ]

pub source_run_id : SourceId → Option ℕ
source_run_id s = run_id_of s.typ s.value

-- `srcVal, _ := strconv.Atoi`, with the value next to an error.
pub matches : ℕ → SourceType → Bytes → Bool
matches destination sst_id value = false
matches destination sorted_run_id value = atoi_value value % 2 ^ 32 == destination

pub one_source_matches : List SourceId → ℕ → Bool
one_source_matches [] destination = false
one_source_matches (s ∷ l) destination =
    if matches destination s.typ s.value then true else one_source_matches l destination

-- The loop over the sorted runs, up to the first that has the id of the destination.
pub check_destination : List SortedRun → Compaction → Bool
check_destination [] c = true
check_destination (r ∷ l) c =
    if r.id == c.destination
    then one_source_matches c.sources c.destination
    else check_destination l c

pub submit_compaction : CompactorState → Compaction → Result CompactionError CompactorState
submit_compaction s c = elim (lookup c.destination s.compactions) [
  | some old ↦ err ongoing_compaction
  | none ↦
      if check_destination s.db_state.compacted c
      then ok (record s { compactions = assign c.destination c s.compactions })
      else err destination_exists
]

abbrev pub max_uint32 : ℕ
max_uint32 = 2 ^ 32 - 1

-- Membership in the sets that the source keeps as maps.
pub contains_ulid : List Ulid → Ulid → Bool
contains_ulid [] x = false
contains_ulid (y ∷ l) x = if equal_bytes y x then true else contains_ulid l x

pub contains_run : List ℕ → ℕ → Bool
contains_run [] n = false
contains_run (m ∷ l) n = if m == n then true else contains_run l n

-- The output goes before the first run whose id is not above its own; runs in `gone` are dropped.
pub place_run : SortedRun → List ℕ → Bool → List SortedRun → List SortedRun
place_run out gone inserted [] = if inserted then [] else out ∷ []
place_run out gone inserted (r ∷ l) =
    let now = not inserted && leb r.id out.id in
    let rest = place_run out gone (inserted || now) l in
    let kept = if contains_run gone r.id then rest else r ∷ rest in if now then out ∷ kept else kept

-- assertCompactedSRsInIDOrder
pub in_id_order : ℕ → List SortedRun → Bool
in_id_order last [] = true
in_id_order last (r ∷ l) = if ltb r.id last then in_id_order r.id l else false

pub next_run_id : List SortedRun → ℕ
next_run_id [] = 0
next_run_id (r ∷ l) = (r.id + 1) % 2 ^ 32

pub is_compacted : IdType → Bool
is_compacted compacted = true
is_compacted IdType.wal = false
is_compacted (IdType.other_type n) = false

pub stops_at : Option Ulid → Ulid → Bool
stops_at none x = false
stops_at (some y) x = equal_bytes x y

module _ (u : Ulids) where
  pub new_source_sst : Ulid → SourceId
  new_source_sst x = record { typ = sst_id; value = u.to_string x }

  pub sst_id_of : SourceType → Bytes → Option Ulid
  sst_id_of sorted_run_id value = none
  sst_id_of sst_id value = u.parse value

  -- SourceID.SstID
  pub source_sst_id : SourceId → Option Ulid
  source_sst_id s = sst_id_of s.typ s.value

  pub source_ssts : List SourceId → List Ulid
  source_ssts [] = []
  source_ssts (s ∷ l) = elim (source_sst_id s) [ none ↦ source_ssts l | some x ↦ x ∷ source_ssts l ]

  -- A source is looked at as a run only if it is no table.
  pub source_runs : List SourceId → List ℕ
  source_runs [] = []
  source_runs (s ∷ l) = elim (source_sst_id s) [
    | some x ↦ source_runs l
    | none ↦ elim (source_run_id s) [ none ↦ source_runs l | some n ↦ n ∷ source_runs l ]
  ]

  -- The tables of level 0 that are no sources. A table whose id is no ULID fails the assertion.
  pub keep_l0 : List Ulid → List Handle → Result ⊥ (List Handle)
  keep_l0 gone [] = ok []
  keep_l0 gone (h ∷ l) = elim (compacted_id u h.id) [
    | none ↦ panic
    | some x ↦ do rest ← keep_l0 gone l; ok (if contains_ulid gone x then rest else h ∷ rest)
  ]

  last_compacted : Option Ulid → List SourceId → Result ⊥ (Option Ulid)
  last_compacted old [] = panic
  last_compacted old (s ∷ l) = elim (source_sst_id s) [ none ↦ ok old | some x ↦ ok (some x) ]

  pub finish : CompactorState → SortedRun → Compaction → Result ⊥ CompactorState
  finish s out c = do
    let db = Snapshot.clone u s.db_state
    l0 ← keep_l0 (source_ssts c.sources) db.l0
    let runs = place_run out (c.destination ∷ source_runs c.sources) false db.compacted
    if not (in_id_order max_uint32 runs) then panic else do
      last ← last_compacted db.l0_last_compacted c.sources
      ok (record {
        db_state = record db { l0 = l0; compacted = runs; l0_last_compacted = last };
        compactions = delete out.id s.compactions;
      })

  -- An output that no compaction waits for is ignored.
  pub finish_compaction : CompactorState → SortedRun → Result ⊥ CompactorState
  finish_compaction s out = elim (lookup out.id s.compactions) [
    | none ↦ ok s
    | some c ↦ finish s out c
  ]

  -- The writer's tables up to the one that was compacted last. A WAL table fails the assertion; an
  -- id that does not parse counts as the zero ULID.
  pub fresh_l0 : Option Ulid → List Handle → Result ⊥ (List Handle)
  fresh_l0 last [] = ok []
  fresh_l0 last (h ∷ l) =
      let stop = stops_at last (or_zero_ulid (compacted_id u h.id)) in
      let rest = fresh_l0 last l in
      if not (is_compacted h.id.typ)
      then panic
      else if stop
      then ok []
      else (do tail ← rest; ok (h ∷ tail))

  -- RefreshDBState
  pub refresh_db_state : CompactorState → Snapshot → Result ⊥ CompactorState
  refresh_db_state s writer = do
    l0 ← fresh_l0 s.db_state.l0_last_compacted writer.l0
    ok (record s {
      db_state = record (Snapshot.clone u s.db_state) {
        l0 = l0;
        last_compacted_wal_sst_id = writer.last_compacted_wal_sst_id;
        next_wal_sst_id = writer.next_wal_sst_id;
      };
    })

  -- The sources are all tables of level 0, from the newest to the oldest.
  pub l0_sources : List Handle → Result ⊥ (List SourceId)
  l0_sources [] = ok []
  l0_sources (h ∷ l) = elim (compacted_id u h.id) [
    | none ↦ panic
    | some x ↦ do rest ← l0_sources l; ok (new_source_sst x ∷ rest)
  ]

  -- maybeScheduleCompaction of SizeTieredCompactionScheduler
  pub maybe_schedule_compaction : CompactorState → Result ⊥ (List Compaction)
  maybe_schedule_compaction s = if ltb (length s.db_state.l0) 4 then ok [] else do
    sources ← l0_sources s.db_state.l0
    ok (record { sources = sources; destination = next_run_id s.db_state.compacted } ∷ [])
