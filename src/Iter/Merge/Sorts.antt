-- ===== src/Iter/Merge/Sorts.antt =====
-- What a merge gives: the keys of its iterators in ascending order, each with the value that the
-- first iterator with the key has.
use slatedb_go.Prelude.{
  ℕ, zero, suc, ◌+◌, ◌<◌, ◌≡◌, refl, sym, subst, ◌∙◌, arith, true, inl, inr, none, some, List, [],
  ◌∷◌, All, tt, length, map,
}
use slatedb_go.Prelude.Bytes.{Bytes, equal_bytes, equal_bytes_iff, lt_bytes, lt_bytes_trans}
use slatedb_go.Prelude.Result.{ok}
use slatedb_go.Types.{RowEntry}
use slatedb_go.Iter.{KvIterator, IsFinite}
use slatedb_go.Iter.Merge.{MergeSort, new_merge_sort, collect}
use slatedb_go.Iter.Merge.Order.{lt_bytes-ne, lt_bytes-ne_right, bytes_cases, nil-le}
use slatedb_go.Iter.Merge.Streams.{
  find, first, AtLeast, Above, IsSorted, IsAscending, total, All-mono, find-Above,
}
use slatedb_go.Iter.Merge.Fill.{All-weaken, fill_lem}
use slatedb_go.Iter.Merge.Next.{IsMergingSorted, next_entry_lem}

Above-trans : (a b : Bytes) (l : List RowEntry) → lt_bytes a b ≡ true → Above b l → Above a l
Above-trans a b l h =
    All-mono (λ e. lt_bytes b e.key ≡ true) (λ e. lt_bytes a e.key ≡ true) l
      λ e q. lt_bytes_trans a b e.key h q

-- No key is below the empty one.
all-bounded : (ls : List (List RowEntry)) → All (AtLeast []) ls
all-bounded [] = tt
all-bounded (l ∷ ls) = (each l, all-bounded ls)
  where
    each : (l : List RowEntry) → AtLeast [] l
    each [] = tt
    each (e ∷ l) = (nil-le e.key, each l)

-- One entry in front of the rest of the output.
find-cons :
    (last : Bytes) (x : RowEntry) (out : List RowEntry) (ls ks : List (List RowEntry)) (k : Bytes)
    → Above x.key out
    → lt_bytes last k ≡ true
    → first x.key ls ≡ some x.value
    → ((j : Bytes) → lt_bytes last j ≡ true → lt_bytes j x.key ≡ true → first j ls ≡ none)
    → ((j : Bytes) → lt_bytes x.key j ≡ true → first j ks ≡ first j ls)
    → ((j : Bytes) → lt_bytes x.key j ≡ true → find j out ≡ first j ks)
    → find k (x ∷ out) ≡ first k ls
unfolding find
find-cons last x out ls ks k up p value below kept found = elim (bytes_cases x.key k) [
  | inl e ↦ rw (lt_bytes-ne_right x.key k e, find) (found k e ∙ kept k e)
  | inr (inl e) ↦
      let here : equal_bytes x.key k ≡ true = (equal_bytes_iff x.key k).1 e in
      let same : first k ls ≡ some x.value = rw (← e) value in rw (here, find) (sym same)
  | inr (inr e) ↦
      rw (lt_bytes-ne k x.key e, find)
        (find-Above k out (Above-trans k x.key out e up) ∙ sym (below k p e))
]

module _ {S : Type 0} (it : KvIterator S) (f : IsFinite it) where
  collect_lem :
      (fuel : ℕ) (m : MergeSort S) (ls : List (List RowEntry))
      → total ls < fuel
      → IsMergingSorted it f m ls
      → (out : List RowEntry) × (collect it fuel m ≡ ok out)
        × IsAscending out
        × Above m.last_key out
        × ((k : Bytes) → lt_bytes m.last_key k ≡ true → find k out ≡ first k ls)
  unfolding collect find
  collect_lem zero m ls h v = elim h [ ]
  collect_lem (suc fuel) m ls h v = elim (next_entry_lem it f (suc fuel) m ls h v) [
    | inl (n, done, nothing) ↦
        let ends : collect it (suc fuel) m ≡ ok [] = rw (done, collect) refl in
        ([], ends, tt, tt, λ k p. sym (nothing k p))
    | inr (x, n, ks, done, g) ↦
        let fewer = g.fewer in
        let (out, rest, asc, up, reads) = collect_lem fuel n ks (omega (arith, h, fewer)) g.state in
        let ends : collect it (suc fuel) m ≡ ok (x ∷ out) = rw (done, collect) (rw rest refl) in
        let up2 : Above x.key out = subst (λ k. Above k out) g.last up in
        let found : (k : Bytes) → lt_bytes x.key k ≡ true → find k out ≡ first k ks =
          λ k p. reads k (rw g.last p) in
        (
          x ∷ out,
          ends,
          (up2, asc),
          (g.above, Above-trans m.last_key x.key out g.above up2),
          λ k p. find-cons m.last_key x out ls ks k up2 p g.value g.least g.kept found,
        )
  ]

  new_merge_sort-IsMergingSorted :
      (ss : List S)
      → All IsSorted (map f.remaining ss)
      → IsMergingSorted it f (new_merge_sort it ss) (map f.remaining ss)
  unfolding new_merge_sort
  new_merge_sort-IsMergingSorted ss sorted =
      let (os, is, low, held, len) = fill_lem it f 0 ss [] [] tt tt in
      record {
        merging = record {
          once = os;
          inside = All-weaken (0 + length ss) _ _ (omega (arith, len)) is;
          held = held;
        };
        sorted = sorted;
        bounded = all-bounded (map f.remaining ss);
      }

  -- Over iterators that are sorted by key, and with more fuel than entries, the merge ends without a
  -- panic. It gives keys that ascend strictly and are not empty, and each key that is not empty is
  -- found in its output with the value of the first iterator that has the key.
  pub merge_sort_lem :
      (fuel : ℕ) (ss : List S)
      → All IsSorted (map f.remaining ss)
      → total (map f.remaining ss) < fuel
      → (out : List RowEntry) × (collect it fuel (new_merge_sort it ss) ≡ ok out)
        × IsAscending out
        × Above [] out
        × ((k : Bytes) → lt_bytes [] k ≡ true → find k out ≡ first k (map f.remaining ss))
  unfolding new_merge_sort
  merge_sort_lem fuel ss sorted h =
      collect_lem fuel (new_merge_sort it ss) (map f.remaining ss) h
        (new_merge_sort-IsMergingSorted ss sorted)
