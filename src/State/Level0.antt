-- ===== src/State/Level0.antt =====
-- Level 0 in slatedb/state/db_state.go: what a refresh leaves of it, and the memtable that moves to it.
use slatedb_go.Prelude.{
  ◌≡◌, refl, sym, tt, true, ◌∙◌, ap, ==-refl, false, Bool-cases, inl, inr, Option, none, some, List,
  [], ◌∷◌, ◌++◌, ◌==◌, length, length-append, arith,
}
use slatedb_go.Prelude.Result.{ok}
use slatedb_go.Sst.{Ulid, Ulids, Handle}
use slatedb_go.Snapshot.{Snapshot}
use slatedb_go.Table.{Skiplist, ImmutableMemtable}
use slatedb_go.State.{
  Deques, IsDeque, DbState, oldest, oldest_imm_memtable, move_imm_memtable_to_l0, newer_l0,
  stops_at, refresh_db_state,
}

module _ {M : Type 0} (d : Deques) (sk : Skiplist M) where
  -- What is cut off of level 0 is nothing, or starts with a table that `P` allows as the last compacted.
  pub IsCut : Ulids → (Option Ulid → Type 0) → List Handle → Type 0
  IsCut u P [] = Unit
  IsCut u P (h ∷ cut) = (last : Option Ulid) × P last × (stops_at d sk u last h ≡ true)

  pub IsCut-nil : (u : Ulids) (P : Option Ulid → Type 0) → IsCut u P []
  unfolding IsCut
  IsCut-nil u P = tt

  pub IsCut-append :
      (u : Ulids) (P : Option Ulid → Type 0) (a b : List Handle)
      → IsCut u P a
      → IsCut u P b
      → IsCut u P (a ++ b)
  unfolding IsCut
  IsCut-append u P [] b x y = y
  IsCut-append u P (h ∷ a) b x y = x

  -- A refresh only cuts level 0 off behind.
  pub newer_l0-prefix :
      (u : Ulids) (P : Option Ulid → Type 0) (last : Option Ulid) (l : List Handle)
      → P last
      → (cut : List Handle) × (l ≡ newer_l0 d sk u last l ++ cut) × IsCut u P cut
  unfolding newer_l0 IsCut
  newer_l0-prefix u P last [] p = ([], refl, tt)
  newer_l0-prefix u P last (h ∷ l) p = elim (Bool-cases (stops_at d sk u last h)) [
    | inl e ↦
        let nothing : newer_l0 d sk u last (h ∷ l) ≡ [] = rw (e, newer_l0) refl in
        (h ∷ l, ap (λ t. t ++ h ∷ l) (sym nothing), (last, p, e))
    | inr e ↦
        let (cut, same, is_cut) = newer_l0-prefix u P last l p in
        let more : newer_l0 d sk u last (h ∷ l) ≡ h ∷ newer_l0 d sk u last l =
          rw (e, newer_l0) refl in
        (cut, ap (λ t. h ∷ t) same ∙ ap (λ t. t ++ cut) (sym more), is_cut)
  ]

  -- A refresh changes nothing but level 0, the runs and the last compaction.
  pub refresh_db_state_lem :
      (u : Ulids) (P : Option Ulid → Type 0) (s : DbState d M) (c : Snapshot)
      → P c.l0_last_compacted
      → let t = refresh_db_state d sk u s c in
        (cut : List Handle) × (s.core.l0 ≡ t.core.l0 ++ cut)
        × IsCut u P cut
        × (t.core.compacted ≡ c.compacted)
        × (t.core.l0_last_compacted ≡ c.l0_last_compacted)
        × (t ≡ record s {
          core = record s.core {
            l0 = t.core.l0;
            compacted = t.core.compacted;
            l0_last_compacted = t.core.l0_last_compacted;
          };
        })
  unfolding refresh_db_state
  refresh_db_state_lem u P s c p =
      let (cut, same, is_cut) = newer_l0-prefix u P c.l0_last_compacted s.core.l0 p in
      (cut, same, is_cut, refl, refl, refl)

  pub oldest_imm_memtable-nil :
      (s : DbState d M) → d.items s.imm_memtables ≡ [] → oldest_imm_memtable d sk s ≡ ok none
  unfolding oldest_imm_memtable oldest
  oldest_imm_memtable-nil s e = rw e refl

  module _ (q : IsDeque d) (s : DbState d M) (ms : List (ImmutableMemtable M))
      (m : ImmutableMemtable M) (e : d.items s.imm_memtables ≡ ms ++ m ∷ []) where
    pub oldest_imm_memtable-last : oldest_imm_memtable d sk s ≡ ok (some m)
    unfolding oldest_imm_memtable oldest
    oldest_imm_memtable-last =
        let some_left : (length (ms ++ m ∷ []) == 0) ≡ false =
          ground (arith, length-append ms (m ∷ [])) in
        rw e (rw some_left (rw (q.back_last s.imm_memtables ms m e) refl))

    -- The oldest memtable becomes the newest table of level 0.
    pub move_lem :
        (h : Handle)
        → (p : d.Deque (ImmutableMemtable M)) × (move_imm_memtable_to_l0 d sk s m h
            ≡ ok (record s {
              imm_memtables = p;
              core = record s.core {
                l0 = h ∷ s.core.l0;
                last_compacted_wal_sst_id = m.last_wal_id;
              };
            }))
          × (d.items p ≡ ms)
    unfolding move_imm_memtable_to_l0
    move_lem h =
        let (p, popped, left) = q.pop_back_last s.imm_memtables ms m e in
        (p, rw (popped, move_imm_memtable_to_l0) (rw (==-refl m.last_wal_id) refl), left)
