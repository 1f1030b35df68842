-- ===== src/Compaction/Refresh.antt =====
-- RefreshDBState of slatedb/compaction/state.go: the tables that the writer added since the last
-- compaction.
use slatedb_go.Prelude.{
  ◌≡◌, ◌≢◌, refl, tt, sym, ap, subst, ◌∙◌, true, false, Option, none, some, List, [], ◌∷◌, ◌++◌,
  All, Bool-cases, inl, inr,
}
use slatedb_go.Prelude.Bytes.{equal_bytes_iff}
use slatedb_go.Prelude.Result.{ok}
use slatedb_go.Sst.{
  Ulid, Ulids, IsFaithful, Handle, IsMade, made_compacted, compacted_id, or_zero_ulid,
  new_id_compacted, compacted_id-new_id_compacted,
}
use slatedb_go.Snapshot.{Snapshot, clone_made}
use slatedb_go.Compaction.{CompactorState, is_compacted, stops_at, fresh_l0, refresh_db_state}
use slatedb_go.Compaction.WellFormed.{WellFormed, IsLevel}

-- What stands behind the new tables starts with the one that was compacted last.
abbrev pub IsEnd : Ulids → Option Ulid → List Handle → Type 0
IsEnd u last [] = Unit {0}
IsEnd u last (h ∷ l) = compacted_id u h.id ≡ last

stops_at-true : (last : Option Ulid) (x : Ulid) → stops_at last x ≡ true → some x ≡ last
unfolding stops_at
stops_at-true none x e = absurd (cc)
stops_at-true (some y) x e = ap some ((equal_bytes_iff x y).0 e)

stops_at-false : (last : Option Ulid) (x : Ulid) → stops_at last x ≡ false → some x ≢ last
unfolding stops_at
stops_at-false none x e q = absurd (cc)
stops_at-false (some y) x e q =
    let same : x ≡ y = cc in let stop = (equal_bytes_iff x y).1 same in absurd (cc)

All-front : (P : Handle → Type 0) (xs ys : List Handle) → All P (xs ++ ys) → All P xs
All-front P [] ys m = tt
All-front P (x ∷ xs) ys m = (m.0, All-front P xs ys m.1)

level_made : (u : Ulids) (l : List Handle) → All (IsLevel u) l → All (λ h. IsMade u h.id) l
level_made u [] m = tt
level_made u (h ∷ l) ((x, e), m) = (made_compacted x e, level_made u l m)

module _ (u : Ulids) (f : IsFaithful u) where
  level_typ : (h : Handle) → IsLevel u h → is_compacted h.id.typ ≡ true
  unfolding is_compacted new_id_compacted
  level_typ h (x, e) = rw e refl

  -- A stop is at the table that was compacted last.
  fresh_l0_lem :
      (last : Option Ulid) (l : List Handle)
      → All (IsLevel u) l
      → (fresh : List Handle) × (stale : List Handle) × (fresh_l0 u last l ≡ ok fresh)
        × (l ≡ fresh ++ stale)
        × All (λ h. compacted_id u h.id ≢ last) fresh
        × IsEnd u last stale
  unfolding fresh_l0 stops_at or_zero_ulid
  fresh_l0_lem last [] m = ([], [], refl, refl, tt, tt)
  fresh_l0_lem last (h ∷ l) ((x, e), m) =
      let typ = level_typ h (x, e) in
      let id : compacted_id u h.id ≡ some x = rw e (compacted_id-new_id_compacted u f x) in
      let (fresh, stale, done, split, news, end) = fresh_l0_lem last l m in
      elim (Bool-cases (stops_at last x)) [
        | inl stop ↦
            let none_new : fresh_l0 u last (h ∷ l) ≡ ok [] =
              rw (typ, fresh_l0) (rw id (rw stop refl)) in
            ([], h ∷ l, none_new, refl, tt, id ∙ stops_at-true last x stop)
        | inr go ↦
            let one_new : fresh_l0 u last (h ∷ l) ≡ ok (h ∷ fresh) =
              rw (typ, fresh_l0) (rw id (rw go (rw done refl))) in
            (
              h ∷ fresh,
              stale,
              one_new,
              ap (λ t. h ∷ t) split,
              (λ q. stops_at-false last x go (sym id ∙ q), news),
              end,
            )
      ]

  -- The writer's tables in front of the one that was compacted last become level 0; the sorted runs and
  -- the table that was compacted last stay, and so does the invariant.
  pub refresh_db_state-WellFormed :
      (s : CompactorState) (writer : Snapshot)
      → WellFormed u s
      → All (IsLevel u) writer.l0
      → (t : CompactorState) × (stale : List Handle) × (refresh_db_state u s writer ≡ ok t)
        × (writer.l0 ≡ t.db_state.l0 ++ stale)
        × All (λ h. compacted_id u h.id ≢ s.db_state.l0_last_compacted) t.db_state.l0
        × IsEnd u s.db_state.l0_last_compacted stale
        × (t.db_state.compacted ≡ s.db_state.compacted)
        × (t.db_state.l0_last_compacted ≡ s.db_state.l0_last_compacted)
        × WellFormed u t
  unfolding refresh_db_state
  refresh_db_state-WellFormed s writer w m =
      let (fresh, stale, done, split, news, end) =
        fresh_l0_lem s.db_state.l0_last_compacted writer.l0 m in
      let cloned = clone_made u f s.db_state w.made in
      let t : CompactorState = record s {
        db_state = record s.db_state {
          l0 = fresh;
          last_compacted_wal_sst_id = writer.last_compacted_wal_sst_id;
          next_wal_sst_id = writer.next_wal_sst_id;
        };
      } in
      let result : refresh_db_state u s writer ≡ ok t =
        rw (done, refresh_db_state) (rw cloned refl) in
      let level : All (IsLevel u) fresh =
        All-front (IsLevel u) fresh stale (subst (λ k. All (IsLevel u) k) split m) in
      let made = level_made u fresh level in
      let kept : WellFormed u t = record {
        made = record { level = made; runs = w.made.runs };
        level = level;
        ordered = w.ordered;
        entries = w.entries;
      } in
      (t, stale, result, split, news, end, refl, refl, kept)
