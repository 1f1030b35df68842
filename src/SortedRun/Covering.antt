-- ===== src/SortedRun/Covering.antt =====
-- The search of a sorted run against the plain choice of a table.
use slatedb_go.Prelude.{
  ℕ, zero, suc, ◌-◌, ◌≤◌, ◌<◌, ◌≡◌, ◌≢◌, refl, arith, Bool, true, false, Option, none, some, List,
  [], ◌∷◌, length, ltb, ◌==◌, if◌then◌else◌, get_elem?,
}
use slatedb_go.Prelude.Bytes.{Bytes, lt_bytes, gt_bytes, lt_bytes_trans, compare_bytes_swap}
use slatedb_go.Prelude.Result.{Result, ok, panic}
use slatedb_go.Search.{search_lem}
use slatedb_go.Sst.{Handle}
use slatedb_go.SortedRun.{
  SortedRun, after_key, index_of_sst_with_key, handle_at, sst_with_key, IsOrdered, none_left,
  one_left, grows, first_key_at,
}

-- The last table whose first key is not above the key.
pub covering : List Handle → Bytes → Option Handle
covering [] key = none
covering (h ∷ l) key = elim (covering l key) [
  | some g ↦ some g
  | none ↦ if gt_bytes h.info.first_key key then none else some h
]

IsOrdered-tail : {h : Handle} {l : List Handle} → IsOrdered (h ∷ l) → IsOrdered l
IsOrdered-tail (one_left h n) = none_left
IsOrdered-tail (grows n lt o) = o

IsOrdered-head : {h : Handle} {l : List Handle} → IsOrdered (h ∷ l) → h.info.first_key ≢ []
IsOrdered-head (one_left h n) = n
IsOrdered-head (grows n lt o) = n

first-lt :
    {h : Handle} (l : List Handle) (i : ℕ)
    → IsOrdered (h ∷ l)
    → i < length l
    → lt_bytes h.info.first_key (first_key_at l i) ≡ true
unfolding first_key_at
first-lt [] i o h = elim h [ ]
first-lt (g ∷ l) zero (grows n lt o) h = lt
first-lt (g ∷ l) (suc i) (grows n lt o) h = lt_bytes_trans _ _ _ lt (first-lt l i o (omega arith))

gt-lt : (a b key : Bytes) → lt_bytes a b ≡ true → gt_bytes a key ≡ true → gt_bytes b key ≡ true
gt-lt a b key lt gt =
    ground (arith, lt_bytes_trans key a b, compare_bytes_swap a key, compare_bytes_swap b key)

after_key_nonempty :
    (k key : Bytes)
    → k ≢ []
    → (if length k == 0 then panic else ok (gt_bytes k key))
      ≡ (let r : Result ⊥ Bool = ok (gt_bytes k key) in r)
after_key_nonempty [] key n = absurd (n refl)
after_key_nonempty (b ∷ bs) key n = ground arith

total :
    (l : List Handle) (key : Bytes) (i : ℕ)
    → IsOrdered l
    → i < length l
    → after_key key (get_elem? l i) ≡ ok (gt_bytes (first_key_at l i) key)
unfolding after_key first_key_at
total [] key i o h = elim h [ ]
total (h ∷ l) key zero o lt = after_key_nonempty h.info.first_key key (IsOrdered-head o)
total (h ∷ l) key (suc i) o lt = total l key i (IsOrdered-tail o) (omega arith)

up :
    (l : List Handle) (key : Bytes)
    → IsOrdered l
    → (i j : ℕ) → i ≤ j
    → j < length l
    → gt_bytes (first_key_at l i) key ≡ true
    → gt_bytes (first_key_at l j) key ≡ true
unfolding first_key_at
up [] key o i j le lt e = elim lt [ ]
up (h ∷ l) key o zero zero le lt e = e
up (h ∷ l) key o zero (suc j) le lt e = gt-lt _ _ key (first-lt l j o (omega arith)) e
up (h ∷ l) key o (suc i) zero le lt e = elim le [ ]
up (h ∷ l) key o (suc i) (suc j) le lt e =
    up l key (IsOrdered-tail o) i j (omega arith) (omega arith) e

before_border : ℕ → Option ℕ
before_border m = if ltb 0 m then some (m - 1) else none

covering-none :
    (l : List Handle) (key : Bytes)
    → ((k : ℕ) → k < length l → gt_bytes (first_key_at l k) key ≡ true)
    → covering l key ≡ none
unfolding covering first_key_at
covering-none [] key h = refl
covering-none (x ∷ l) key h =
    rw (covering-none l key (λ k lt. h (suc k) (omega arith))) (rw (h 0 (omega arith)))

covering_border :
    (l : List Handle) (key : Bytes) (m : ℕ)
    → m ≤ length l
    → ((k : ℕ) → k < m → gt_bytes (first_key_at l k) key ≡ false)
    → ((k : ℕ) → m ≤ k → k < length l → gt_bytes (first_key_at l k) key ≡ true)
    → handle_at l (before_border m) ≡ ok (covering l key)
unfolding covering first_key_at before_border handle_at
covering_border l key zero le low high =
    rw (covering-none l key (λ k lt. high k (omega arith) lt)) (ground arith)
covering_border [] key (suc m) le low high = elim le [ ]
covering_border (h ∷ l) key (suc zero) le low high =
    rw (covering-none l key (λ k lt. high (suc k) (omega arith) (omega arith)))
      (rw (low 0 (omega arith)) (ground arith))
covering_border (h ∷ l) key (suc (suc m)) le low high = ground (
  arith,
  covering_border l key (suc m) (omega arith) (λ k lt. low (suc k) (omega arith))
      (λ k a b. high (suc k) (omega arith) (omega arith)),
)

-- In a run whose tables have growing first keys, the search ends without a panic and picks the last
-- table whose first key is not above the key, if there is one.
pub sst_with_key-covering :
    (s : SortedRun) (key : Bytes)
    → IsOrdered s.sst_list
    → sst_with_key s key ≡ ok (covering s.sst_list key)
unfolding sst_with_key index_of_sst_with_key before_border
sst_with_key-covering s key o =
    let l = s.sst_list in
    let (m, e, b) =
      search_lem (λ i. after_key key (get_elem? l i)) (λ i. gt_bytes (first_key_at l i) key)
        (length l) (λ k. total l key k o) (up l key o) in
    rw e (covering_border l key m b.high (λ k. b.before k (omega arith)) b.after)
