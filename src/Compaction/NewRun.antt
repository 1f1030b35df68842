-- ===== src/Compaction/NewRun.antt =====
-- A run whose id is above all others, and a compaction of which no other has the destination
-- (slatedb/compaction/state.go).
use slatedb_go.Prelude.{
  ℕ, ◌+◌, ◌%◌, ◌^◌, ◌<◌, ◌≡◌, refl, ap, arith, true, false, none, some, List, [], ◌∷◌, ◌++◌, ◌==◌,
  Bool-cases, inl, inr, ==-refl,
}
use slatedb_go.Prelude.Bytes.{equal_bytes, equal_bytes_refl}
use slatedb_go.Sst.{Ulid}
use slatedb_go.SortedRun.{SortedRun}
use slatedb_go.Compaction.{
  Compaction, lookup, assign, delete, max_uint32, contains_run, contains_ulid, place_run,
  in_id_order, check_destination, next_run_id,
}
use slatedb_go.Compaction.Order.{
  remaining, place_run_here, place_run_nil, in_id_order_cons, in_id_order_nil, cons_in_id_order,
  in_id_order_le,
}

-- A run below the first of a list is none of its runs.
pub check_destination-in_id_order :
    (l : List SortedRun) (c : Compaction)
    → in_id_order c.destination l ≡ true
    → check_destination l c ≡ true
unfolding check_destination
check_destination-in_id_order [] c o = refl
check_destination-in_id_order (r ∷ l) c o =
    let split = in_id_order_cons c.destination r l o in
    let other : (r.id == c.destination) ≡ false = ground (arith, split.0) in
    rw other (
      check_destination-in_id_order l c
        (in_id_order_le r.id c.destination l (omega (arith, split.0)) split.1))

pub contains_run-single : (n m : ℕ) → m < n → contains_run (n ∷ []) m ≡ false
unfolding contains_run
contains_run-single n m h = ground arith

pub remaining-single :
    (n : ℕ) (l : List SortedRun) → in_id_order n l ≡ true → remaining (n ∷ []) l ≡ l
unfolding remaining
remaining-single n [] o = refl
remaining-single n (r ∷ l) o =
    let split = in_id_order_cons n r l o in
    rw (contains_run-single n r.id split.0) (
      ap (λ t. r ∷ t)
        (remaining-single n l (in_id_order_le r.id n l (omega (arith, split.0)) split.1)))

pub place_run-newest :
    (out : SortedRun) (l : List SortedRun)
    → in_id_order out.id l ≡ true
    → place_run out (out.id ∷ []) false l ≡ out ∷ l
place_run-newest out [] o = place_run_nil out (out.id ∷ [])
place_run-newest out (r ∷ l) o =
    let split = in_id_order_cons out.id r l o in
    rw (place_run_here out (out.id ∷ []) r l (omega (arith, split.0)))
      (ap (λ t. out ∷ t) (remaining-single out.id (r ∷ l) o))

-- The next id is above those of the runs, which stay below the largest.
pub in_id_order-next_run_id :
    (l : List SortedRun) → in_id_order max_uint32 l ≡ true → in_id_order (next_run_id l) l ≡ true
unfolding next_run_id
in_id_order-next_run_id [] o = in_id_order_nil 0
in_id_order-next_run_id (r ∷ l) o =
    let split = in_id_order_cons max_uint32 r l o in
    cons_in_id_order ((r.id + 1) % 2 ^ 32) r l (omega (arith, split.0)) split.1

pub contains_ulid-append :
    (front : List Ulid) (x : Ulid) (back : List Ulid) → contains_ulid (front ++ x ∷ back) x ≡ true
unfolding contains_ulid
contains_ulid-append [] x back = rw (equal_bytes_refl x) refl
contains_ulid-append (y ∷ l) x back = elim (Bool-cases (equal_bytes y x)) [
  | inl e ↦ rw e refl
  | inr e ↦ rw e (contains_ulid-append l x back)
]

pub append-snoc : (xs : List Ulid) (x : Ulid) (ys : List Ulid) → xs ++ x ∷ ys ≡ (xs ++ x ∷ []) ++ ys
append-snoc [] x ys = refl
append-snoc (y ∷ xs) x ys = ap (λ t. y ∷ t) (append-snoc xs x ys)

pub delete-none : (k : ℕ) (m : List (ℕ × Compaction)) → lookup k m ≡ none → delete k m ≡ m
unfolding lookup delete
delete-none k [] e = refl
delete-none k ((j, c) ∷ m) e = elim (Bool-cases (j == k)) [
  | inl h ↦ absurd (cc)
  | inr h ↦ let rest : lookup k m ≡ none = cc in rw h (ap (λ t. (j, c) ∷ t) (delete-none k m rest))
]

pub delete-assign :
    (k : ℕ) (c : Compaction) (m : List (ℕ × Compaction))
    → lookup k m ≡ none
    → delete k (assign k c m) ≡ m
unfolding delete assign
delete-assign k c m e = rw (==-refl k) (rw (delete-none k m e) (delete-none k m e))

pub lookup-assign :
    (k : ℕ) (c : Compaction) (m : List (ℕ × Compaction)) → lookup k (assign k c m) ≡ some c
unfolding lookup assign
lookup-assign k c m = rw (==-refl k) refl
