-- ===== src/State/Oldest.antt =====
-- OldestImmWAL and OldestImmMemtable of slatedb/state/db_state.go.
use slatedb_go.Prelude.{
  ◌≡◌, refl, ap, arith, false, none, some, List, [], ◌∷◌, ◌++◌, length, length-append, ◌==◌, ◌⊎◌,
  inl, inr,
}
use slatedb_go.Prelude.Result.{ok}
use slatedb_go.Table.{Skiplist, ImmutableWal}
use slatedb_go.State.{Deques, IsDeque, DbState, oldest, oldest_imm_wal}

-- A list is empty or has a last element.
pub last_cases :
    {A : Type 0} (l : List A) → (l ≡ []) ⊎ ((xs : List A) × (x : A) × (l ≡ xs ++ x ∷ []))
last_cases [] = inl refl
last_cases (y ∷ l) = elim (last_cases l) [
  | inl e ↦ inr ([], y, ap (λ t. y ∷ t) e)
  | inr (xs, x, e) ↦ inr (y ∷ xs, x, ap (λ t. y ∷ t) e)
]

module _ {M : Type 0} (d : Deques) (sk : Skiplist M) (q : IsDeque d) where
  pub oldest_imm_wal-nil :
      (s : DbState d M) → d.items s.imm_wals ≡ [] → oldest_imm_wal d sk s ≡ ok none
  unfolding oldest_imm_wal oldest
  oldest_imm_wal-nil s e = rw e refl

  pub oldest_imm_wal-last :
      (s : DbState d M) (ws : List (ImmutableWal M)) (w : ImmutableWal M)
      → d.items s.imm_wals ≡ ws ++ w ∷ []
      → oldest_imm_wal d sk s ≡ ok (some w)
  unfolding oldest_imm_wal oldest
  oldest_imm_wal-last s ws w e =
      let some_left : (length (ws ++ w ∷ []) == 0) ≡ false =
        ground (arith, length-append ws (w ∷ [])) in
      rw e (rw some_left (rw (q.back_last s.imm_wals ws w e) refl))
