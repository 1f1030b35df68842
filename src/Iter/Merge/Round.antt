-- ===== src/Iter/Merge/Round.antt =====
-- A round of the merge: `Pop`, and the next entry of the iterator in the place of the last one.
use slatedb_go.Prelude.{
  ◌<◌, ◌≡◌, refl, sym, subst, arith, false, none, some, List, [], ◌∷◌, All, length, get_elem?, ◌==◌,
  ==_iff, ==-refl,
}
use slatedb_go.Prelude.Bytes.{Bytes}
use slatedb_go.Types.{RowEntry}
use slatedb_go.Types.Warn
use slatedb_go.Types.Warn.{ErrWarn}
use slatedb_go.Prelude.Result.{ok}
use slatedb_go.Iter.{KvIterator, IsFinite}
use slatedb_go.Iter.Merge.{HeapItem, MergeSort, push, set, advance, advanced, least}
use slatedb_go.Iter.Merge.Order.{IsOnce, slot, All-least, least-IsLeast, least-slots}
use slatedb_go.Iter.Merge.Streams.{HasHead, IsLeast}
use slatedb_go.Iter.Merge.Heap.{
  head, tail, slot-none, Held, IsMerging, held-at, held-IsLeast, held-slots, held-set, length-set,
}

module _ {S : Type 0} (it : KvIterator S) (f : IsFinite it) where
  still :
      (m : MergeSort S) (x : HeapItem) (rest : List HeapItem) (s : S)
      → All (λ y. y.index < length m.iterators) (x ∷ rest)
      → All (λ y. y.index < length (set m.iterators x.index s)) (x ∷ rest)
  still m x rest s a =
      subst (λ n. All (λ (y : HeapItem). y.index < n) (x ∷ rest))
        (sym (length-set it f x.index s m.iterators)) a

  -- Behind a `Pop`: the other items and the rest of the lists.
  push-IsMerging :
      (m : MergeSort S) (x : HeapItem) (rest : List HeapItem) (ls : List (List RowEntry))
      (t : List RowEntry) (s : S) (w : ErrWarn) (b : Bytes)
      → IsOnce (x ∷ rest)
      → All (λ y. y.index < length m.iterators) (x ∷ rest)
      → Held it f 0 (x ∷ rest) ls m.iterators
      → HasHead x.kv t x.index ls
      → f.remaining s ≡ tail t
      → IsMerging it f
          (record {
            iterators = set m.iterators x.index s;
            heap = push (head t) x.index rest;
            last_key = b;
            warn = w;
          })
          (set ls x.index t)
  unfolding slot push
  push-IsMerging m x rest ls [] s w b (o, os) (i, is) h has left = record {
    once = os;
    inside = (still m x rest s (i, is)).1;
    held =
        held-set it f 0 x.index x.index (x ∷ rest) rest x.kv [] s ls m.iterators (omega arith)
          (λ k n. let ne : (x.index == k) ≡ false = ground (arith, ==_iff x.index k) in rw ne refl)
          (slot-none x.index rest o) left has h;
  }
  push-IsMerging m x rest ls (y ∷ t) s w b (o, os) (i, is) h has left = record {
    once = (o, os);
    inside = still m x rest s (i, is);
    held =
        held-set it f 0 x.index x.index (x ∷ rest) (push (some y) x.index rest) x.kv (y ∷ t) s ls
          m.iterators (omega arith)
          (λ k n. let ne : (x.index == k) ≡ false = ground (arith, ==_iff x.index k) in rw ne refl)
          (rw (==-refl x.index) refl) left has h;
  }

  pub last_key-IsMerging :
      (m : MergeSort S) (ls : List (List RowEntry)) (b : Bytes)
      → IsMerging it f m ls
      → IsMerging it f (record m { last_key = b }) ls
  last_key-IsMerging m ls b v = record { once = v.once; inside = v.inside; held = v.held }

  -- The iterator of an item gives the entry that takes its place.
  advance_lem :
      (m : MergeSort S) (x : HeapItem) (rest : List HeapItem) (ls : List (List RowEntry))
      (t : List RowEntry) (s : S)
      → IsOnce (x ∷ rest)
      → All (λ y. y.index < length m.iterators) (x ∷ rest)
      → Held it f 0 (x ∷ rest) ls m.iterators
      → HasHead x.kv t x.index ls
      → get_elem? m.iterators x.index ≡ some s
      → f.remaining s ≡ t
      → (n : MergeSort S) × (advance it m x rest ≡ ok n)
        × IsMerging it f n (set ls x.index t)
        × (n.last_key ≡ m.last_key)
  unfolding advance advanced push
  advance_lem m x rest ls [] s o i h has at left =
      let s2 = (it.next_entry s).1 in
      let n : MergeSort S = record m {
        iterators = set m.iterators x.index s2;
        heap = rest;
        warn = Warn.merge m.warn (it.warnings s2);
      } in
      let gives : it.next_entry s ≡ (none, s2) = ground (arith, f.next-none s left) in
      let done : advance it m x rest ≡ ok n = rw (at, advance) (rw (gives, advanced) refl) in
      (
        n,
        done,
        push-IsMerging m x rest ls [] s2 n.warn m.last_key o i h has (f.remaining-none s left),
        refl,
      )
  advance_lem m x rest ls (e ∷ t) s o i h has at left =
      let s2 = (it.next_entry s).1 in
      let n : MergeSort S = record m {
        iterators = set m.iterators x.index s2;
        heap = push (some e) x.index rest;
      } in
      let gives : it.next_entry s ≡ (some e, s2) = ground (arith, f.next-some s e t left) in
      let done : advance it m x rest ≡ ok n = rw (at, advance) (rw (gives, advanced) refl) in
      (
        n,
        done,
        push-IsMerging m x rest ls (e ∷ t) s2 m.warn m.last_key o i h has
            (f.remaining-some s e t left),
        refl,
      )

  -- One round: the least entry leaves the front of its list.
  pub round_lem :
      (m : MergeSort S) (x : HeapItem) (h : List HeapItem) (ls : List (List RowEntry))
      → m.heap ≡ x ∷ h
      → IsMerging it f m ls
      → let item = (least x h).0 in
        (t : List RowEntry) × (n : MergeSort S) × (advance it m item (least x h).1 ≡ ok n)
        × HasHead item.kv t item.index ls
        × IsLeast item.kv item.index 0 ls
        × IsMerging it f n (set ls item.index t)
        × (n.last_key ≡ m.last_key)
  unfolding slot
  round_lem m x h ls e v =
      let item = (least x h).0 in
      let rest = (least x h).1 in
      let once : IsOnce (x ∷ h) = subst IsOnce e v.once in
      let inside : All (λ y. y.index < length m.iterators) (x ∷ h) =
        subst (λ g. All (λ (y : HeapItem). y.index < length m.iterators) g) e v.inside in
      let held : Held it f 0 (x ∷ h) ls m.iterators =
        subst (λ g. Held it f 0 g ls m.iterators) e v.held in
      let (once2, slots) = least-slots x h once.0 once.1 in
      let inside2 = All-least (λ y. y.index < length m.iterators) x h inside.0 inside.1 in
      let held2 : Held it f 0 (item ∷ rest) ls m.iterators =
        held-slots it f 0 (x ∷ h) (item ∷ rest) ls m.iterators (λ k p. slots k) held in
      let here : slot item.index (item ∷ rest) ≡ some item.kv = rw (==-refl item.index) refl in
      let (t, s, has, at, left) =
        held-at it f 0 item.index item.index item.kv (item ∷ rest) ls m.iterators (omega arith)
          inside2.0 here held2 in
      let (n, done, merging, same) =
        advance_lem m item rest ls t s once2 inside2 held2 has at left in
      (
        t,
        n,
        done,
        has,
        held-IsLeast it f item 0 (x ∷ h) ls m.iterators (least-IsLeast x h) held,
        merging,
        same,
      )
