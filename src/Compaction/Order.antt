-- ===== src/Compaction/Order.antt =====
-- The order of the sorted runs that assertCompactedSRsInIDOrder of slatedb/compaction/state.go checks,
-- and the loop of FinishCompaction that puts the output among them.
use slatedb_go.Prelude.{
  ℕ, ◌≤◌, ◌<◌, ◌≡◌, refl, arith, ap, true, false, List, [], ◌∷◌, ◌++◌, All, tt, ◌+◌, lt→ltb,
  le_cases, le→leb, gt→leb, if◌then◌else◌, Bool-cases, inl, inr,
}
use slatedb_go.SortedRun.{SortedRun}
use slatedb_go.Compaction.{contains_run, place_run, in_id_order}

-- The runs that are not in `gone`.
unfoldable pub remaining : List ℕ → List SortedRun → List SortedRun
remaining gone [] = []
remaining gone (r ∷ l) =
    let rest = remaining gone l in if contains_run gone r.id then rest else r ∷ rest

pub in_id_order_cons :
    (n : ℕ) (r : SortedRun) (l : List SortedRun)
    → in_id_order n (r ∷ l) ≡ true
    → (r.id < n) × (in_id_order r.id l ≡ true)
unfolding in_id_order
in_id_order_cons n r l o = ground arith

pub cons_in_id_order :
    (n : ℕ) (r : SortedRun) (l : List SortedRun)
    → r.id < n
    → in_id_order r.id l ≡ true
    → in_id_order n (r ∷ l) ≡ true
unfolding in_id_order
cons_in_id_order n r l h o = rw (lt→ltb r.id n h) o

pub in_id_order_le :
    (n m : ℕ) (l : List SortedRun) → n ≤ m → in_id_order n l ≡ true → in_id_order m l ≡ true
unfolding in_id_order
in_id_order_le n m [] h o = refl
in_id_order_le n m (r ∷ l) h o =
    let split = in_id_order_cons n r l o in
    cons_in_id_order m r l (omega (arith, split.0, h)) split.1

kept_or_not :
    (gone : List ℕ) (n : ℕ) (r : SortedRun) (rest : List SortedRun)
    → r.id < n
    → in_id_order r.id rest ≡ true
    → in_id_order n (if contains_run gone r.id then rest else r ∷ rest) ≡ true
kept_or_not gone n r rest h o = elim (Bool-cases (contains_run gone r.id)) [
  | inl e ↦ rw e (in_id_order_le r.id n rest (omega (arith, h)) o)
  | inr e ↦ rw e (cons_in_id_order n r rest h o)
]

in_id_order-remaining :
    (gone : List ℕ) (n : ℕ) (l : List SortedRun)
    → in_id_order n l ≡ true
    → in_id_order n (remaining gone l) ≡ true
unfolding remaining
in_id_order-remaining gone n [] o = o
in_id_order-remaining gone n (r ∷ l) o =
    let split = in_id_order_cons n r l o in
    kept_or_not gone n r (remaining gone l) split.0 (in_id_order-remaining gone r.id l split.1)

place_run-true :
    (out : SortedRun) (gone : List ℕ) (l : List SortedRun)
    → place_run out gone true l ≡ remaining gone l
unfolding place_run remaining
place_run-true out gone [] = refl
place_run-true out gone (r ∷ l) = rw (place_run-true out gone l)

pub place_run_nil : (out : SortedRun) (gone : List ℕ) → place_run out gone false [] ≡ out ∷ []
unfolding place_run
place_run_nil out gone = refl

pub in_id_order_nil : (n : ℕ) → in_id_order n [] ≡ true
unfolding in_id_order
in_id_order_nil n = refl

-- Where the output goes: before the first run whose id is not above its own.
pub place_run_here :
    (out : SortedRun) (gone : List ℕ) (r : SortedRun) (l : List SortedRun)
    → r.id ≤ out.id
    → place_run out gone false (r ∷ l) ≡ out ∷ remaining gone (r ∷ l)
unfolding place_run remaining
place_run_here out gone r l h = rw (le→leb r.id out.id h) (rw (place_run-true out gone l))

place_run_later :
    (out : SortedRun) (gone : List ℕ) (r : SortedRun) (l : List SortedRun)
    → out.id < r.id
    → place_run out gone false (r ∷ l) ≡ (
        if contains_run gone r.id
        then place_run out gone false l
        else r ∷ place_run out gone false l)
unfolding place_run
place_run_later out gone r l h = rw (gt→leb r.id out.id h)

kept_below :
    (gone : List ℕ) (n m : ℕ)
    → m ≤ n
    → contains_run gone n ≡ true
    → contains_run gone m ≡ false
    → m < n
kept_below gone n m h c e = elim (le_cases n m) [
  | inr lt ↦ lt
  | inl le ↦ let same : n ≡ m = omega arith in absurd (cc)
]

-- A list in the order below n + 1 is in the order below n once the run n is gone.
remaining_below :
    (gone : List ℕ) (n : ℕ) (r : SortedRun) (l : List SortedRun)
    → r.id ≤ n
    → contains_run gone n ≡ true
    → in_id_order r.id l ≡ true
    → in_id_order n (remaining gone (r ∷ l)) ≡ true
unfolding remaining
remaining_below gone n r l h c o =
    let kept = in_id_order-remaining gone r.id l o in
    elim (Bool-cases (contains_run gone r.id)) [
      | inl e ↦ rw e (in_id_order_le r.id n (remaining gone l) h kept)
      | inr e ↦ rw e (cons_in_id_order n r (remaining gone l) (kept_below gone n r.id h c e) kept)
    ]

-- With the output's own id among those in `gone`, the output stands in order among the rest.
pub in_id_order-place_run :
    (out : SortedRun) (gone : List ℕ) (n : ℕ) (l : List SortedRun)
    → out.id < n
    → contains_run gone out.id ≡ true
    → in_id_order n l ≡ true
    → in_id_order n (place_run out gone false l) ≡ true
in_id_order-place_run out gone n [] h c o =
    rw (place_run_nil out gone) (cons_in_id_order n out [] h (in_id_order_nil out.id))
in_id_order-place_run out gone n (r ∷ l) h c o =
    let split = in_id_order_cons n r l o in
    elim (le_cases r.id out.id) [
      | inl le ↦ rw (place_run_here out gone r l le) (
          cons_in_id_order n out (remaining gone (r ∷ l)) h
            (remaining_below gone out.id r l le c split.1))
      | inr gt ↦
          let rest = in_id_order-place_run out gone r.id l gt c split.1 in
          rw (place_run_later out gone r l gt)
            (kept_or_not gone n r (place_run out gone false l) split.0 rest)
    ]

-- Runs in order below `n` have ids that are at most `m`, if `n` is at most `m` + 1.
All-remaining :
    (m n : ℕ) (gone : List ℕ) (l : List SortedRun)
    → n ≤ m + 1
    → in_id_order n l ≡ true
    → All (λ (r : SortedRun). r.id ≤ m) (remaining gone l)
unfolding remaining
All-remaining m n gone [] h o = tt
All-remaining m n gone (r ∷ l) h o =
    let split = in_id_order_cons n r l o in
    let rest = All-remaining m r.id gone l (omega (arith, split.0, h)) split.1 in
    elim (Bool-cases (contains_run gone r.id)) [
      | inl c ↦ rw c rest
      | inr c ↦ rw c (omega (arith, split.0, h), rest)
    ]

-- Of runs in the order of their ids, those that stay are parted where the output goes: it stands behind
-- the runs with higher ids and in front of the others, whatever runs are dropped.
pub place_run_lem :
    (out : SortedRun) (gone : List ℕ) (n : ℕ) (l : List SortedRun)
    → in_id_order n l ≡ true
    → (front : List SortedRun) × (back : List SortedRun) × (remaining gone l ≡ front ++ back)
      × (place_run out gone false l ≡ front ++ out ∷ back)
      × All (λ (r : SortedRun). out.id < r.id) front
      × All (λ (r : SortedRun). r.id ≤ out.id) back
unfolding remaining
place_run_lem out gone n [] o = ([], [], refl, place_run_nil out gone, tt, tt)
place_run_lem out gone n (r ∷ l) o = elim (le_cases r.id out.id) [
  | inl le ↦ (
    [],
    remaining gone (r ∷ l),
    refl,
    place_run_here out gone r l le,
    tt,
    All-remaining out.id (r.id + 1) gone (r ∷ l) (omega (arith, le))
        (cons_in_id_order (r.id + 1) r l (omega arith) (in_id_order_cons n r l o).1),
  )
  | inr gt ↦
      let split = in_id_order_cons n r l o in
      let (front, back, e, p, above, below) = place_run_lem out gone r.id l split.1 in
      let later = place_run_later out gone r l gt in
      elim (Bool-cases (contains_run gone r.id)) [
        | inl c ↦
            let e2 : remaining gone (r ∷ l) ≡ front ++ back = rw c e in
            let p2 : place_run out gone false (r ∷ l) ≡ front ++ out ∷ back = rw later (rw c p) in
            (front, back, e2, p2, above, below)
        | inr c ↦
            let e2 : remaining gone (r ∷ l) ≡ r ∷ front ++ back = rw c (ap (λ t. r ∷ t) e) in
            let p2 : place_run out gone false (r ∷ l) ≡ r ∷ front ++ out ∷ back =
              rw later (rw c (ap (λ t. r ∷ t) p)) in
            (r ∷ front, back, e2, p2, (gt, above), below)
      ]
]
