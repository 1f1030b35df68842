-- ===== src/Iter/Merge/Next.antt =====
-- One call of NextEntry.
use slatedb_go.Prelude.{
  ℕ, zero, suc, ◌<◌, ◌≡◌, refl, sym, subst, ◌∙◌, arith, true, Bool-cases, ◌⊎◌, inl, inr, none, some,
  List, [], ◌∷◌, All, tt, List-cases,
}
use slatedb_go.Prelude.Bytes.{
  Bytes, equal_bytes, equal_bytes_iff, lt_bytes, le_bytes, lt_bytes_trans,
}
use slatedb_go.Prelude.Result.{ok}
use slatedb_go.Types.{RowEntry}
use slatedb_go.Iter.{KvIterator, IsFinite}
use slatedb_go.Iter.Merge.{HeapItem, MergeSort, set, least, next_entry}
use slatedb_go.Iter.Merge.Order.{le_bytes-lt, lt-le_trans, lt_bytes-ne_right, equal_bytes-sym}
use slatedb_go.Iter.Merge.Streams.{
  first, AtLeast, Above, IsSorted, total, HasHead, All-mono, first-Above, first-set, total-set,
  All-set, least-AtLeast, first-least,
}
use slatedb_go.Iter.Merge.Heap.{Held, IsMerging, held-nil}
use slatedb_go.Iter.Merge.Round.{round_lem, last_key-IsMerging}

all-Above :
    (a b : Bytes) (ls : List (List RowEntry))
    → lt_bytes a b ≡ true
    → All (AtLeast b) ls
    → All (Above a) ls
all-Above a b [] h p = tt
all-Above a b (l ∷ ls) h (p, ps) = (
  All-mono (λ e. le_bytes b e.key ≡ true) (λ e. lt_bytes a e.key ≡ true) l
      (λ e q. lt-le_trans a b e.key h q) p,
  all-Above a b ls h ps,
)

head-AtLeast :
    (k : Bytes) (x : RowEntry) (t : List RowEntry) (j : ℕ) (ls : List (List RowEntry))
    → HasHead x t j ls
    → All (AtLeast k) ls
    → le_bytes k x.key ≡ true
head-AtLeast k x t j [] h a = elim h [ ]
head-AtLeast k x t zero (l ∷ ls) h (p, a) = let q : AtLeast k (x ∷ t) = subst (AtLeast k) h p in q.0
head-AtLeast k x t (suc j) (l ∷ ls) h (p, a) = head-AtLeast k x t j ls h a

module _ {S : Type 0} (it : KvIterator S) (f : IsFinite it) where
  -- The merge has the lists left, sorted and not below the last key that it gave.
  pub record IsMergingSorted (m : MergeSort S) (ls : List (List RowEntry)) : Type 0 where
    pub merging : IsMerging it f m ls
    pub sorted : All IsSorted ls
    pub bounded : All (AtLeast m.last_key) ls

  -- The next entry is the least above the last key.
  pub record Gives (m : MergeSort S) (ls : List (List RowEntry)) (x : RowEntry) (n : MergeSort S)
      (ks : List (List RowEntry)) : Type 0 where
    pub state : IsMergingSorted n ks
    pub last : n.last_key ≡ x.key
    pub above : lt_bytes m.last_key x.key ≡ true
    pub fewer : total ks < total ls
    pub value : first x.key ls ≡ some x.value
    pub least :
        (k : Bytes) → lt_bytes m.last_key k ≡ true → lt_bytes k x.key ≡ true → first k ls ≡ none
    pub kept : (k : Bytes) → lt_bytes x.key k ≡ true → first k ks ≡ first k ls

  -- NextEntry has nothing above the last key, or gives the least entry above it.
  abbrev Outcome : ℕ → MergeSort S → List (List RowEntry) → Type 0
  Outcome fuel m ls =
      ((n : MergeSort S) × (next_entry it fuel m ≡ ok (none, n))
        × ((k : Bytes) → lt_bytes m.last_key k ≡ true → first k ls ≡ none))
      ⊎ ((x : RowEntry) × (n : MergeSort S) × (ks : List (List RowEntry)) × (next_entry it fuel m
            ≡ ok (some x, n))
          × Gives m ls x n ks)

  -- An entry with the last key again is passed over.
  pass_over :
      (fuel : ℕ) (m n : MergeSort S) (x : HeapItem) (t : List RowEntry) (ls : List (List RowEntry))
      → HasHead x.kv t x.index ls
      → x.kv.key ≡ m.last_key
      → n.last_key ≡ m.last_key
      → next_entry it (suc fuel) m ≡ next_entry it fuel n
      → Outcome fuel n (set ls x.index t)
      → Outcome (suc fuel) m ls
  pass_over fuel m n x t ls has old same step out =
      let keep : (k : Bytes)
          → lt_bytes m.last_key k ≡ true
          → first k (set ls x.index t) ≡ first k ls =
        λ k p. first-set k x.kv t x.index ls has (lt_bytes-ne_right x.kv.key k (rw old p)) in
      elim out [
        | inl (o, done, nothing) ↦
            inl (o, step ∙ done, λ k p. sym (keep k p) ∙ nothing k (rw same p))
        | inr (e, o, ks, done, g) ↦
            let above : lt_bytes m.last_key e.key ≡ true = rw (← same) g.above in
            inr (
              e,
              o,
              ks,
              step ∙ done,
              record {
                state = g.state;
                last = g.last;
                above = above;
                fewer =
                    let a = g.fewer in
                    let b = total-set x.kv t x.index ls has in omega (arith, a, b);
                value = sym (keep e.key above) ∙ g.value;
                least = λ k p q. sym (keep k p) ∙ g.least k (rw same p) q;
                kept = λ k p. g.kept k p ∙ keep k (lt_bytes_trans m.last_key e.key k above p);
              },
            )
      ]

  pub next_entry_lem :
      (fuel : ℕ) (m : MergeSort S) (ls : List (List RowEntry))
      → total ls < fuel
      → IsMergingSorted m ls
      → Outcome fuel m ls
  unfolding next_entry
  next_entry_lem zero m ls h v = elim h [ ]
  next_entry_lem (suc fuel) m ls h v = elim (List-cases m.heap) [
    | inl e ↦
        let held : Held it f 0 [] ls m.iterators =
          subst (λ g. Held it f 0 g ls m.iterators) e v.merging.held in
        inl (m, simp (e, next_entry), λ k p. held-nil it f 0 k ls m.iterators held)
    | inr (y, g, e) ↦
        let item = (least y g).0 in
        let (t, n, done, has, low, merging, same) = round_lem it f m y g ls e v.merging in
        let ks = set ls item.index t in
        let lower = least-AtLeast item.kv item.index 0 ls low v.sorted in
        let sorted = All-set IsSorted item.kv t item.index ls (λ s. s.1) has v.sorted in
        let bounded = All-set (AtLeast item.kv.key) item.kv t item.index ls (λ s. s.1) has lower in
        let fewer = total-set item.kv t item.index ls has in
        elim (Bool-cases (equal_bytes item.kv.key m.last_key)) [
          | inl s ↦
              let old = (equal_bytes_iff item.kv.key m.last_key).0 s in
              let step : next_entry it (suc fuel) m ≡ next_entry it fuel n =
                rw (e, next_entry) (rw done (rw s refl)) in
              let last : item.kv.key ≡ n.last_key = old ∙ sym same in
              pass_over fuel m n item t ls has old same step (
                next_entry_lem fuel n ks (omega (arith, h, fewer)) (record {
                  merging = merging;
                  sorted = sorted;
                  bounded = subst (λ k. All (AtLeast k) ks) last bounded;
                }))
          | inr s ↦
              let step : next_entry it (suc fuel) m
                  ≡ ok (some item.kv, record n { last_key = item.kv.key }) =
                rw (e, next_entry) (rw done (rw s refl)) in
              let above : lt_bytes m.last_key item.kv.key ≡ true =
                le_bytes-lt m.last_key item.kv.key
                  (head-AtLeast m.last_key item.kv t item.index ls has v.bounded)
                  (equal_bytes-sym item.kv.key m.last_key s) in
              inr (
                item.kv,
                record n { last_key = item.kv.key },
                ks,
                step,
                record {
                  state = record {
                    merging = last_key-IsMerging it f n ks item.kv.key merging;
                    sorted = sorted;
                    bounded = bounded;
                  };
                  last = refl;
                  above = above;
                  fewer = omega (arith, fewer);
                  value =
                      first-least item.kv t item.index 0 item.index ls (omega arith) has low
                        v.sorted;
                  least = λ k p q. first-Above k ls (all-Above k item.kv.key ls q lower);
                  kept = λ k p.
                      first-set k item.kv t item.index ls has (lt_bytes-ne_right item.kv.key k p);
                },
              )
        ]
  ]
