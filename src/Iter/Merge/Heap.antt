-- ===== src/Iter/Merge/Heap.antt =====
-- The state of a merge: the heap holds the next entry of each iterator.
use slatedb_go.Prelude.{
  ℕ, zero, suc, ◌+◌, ◌<◌, ◌≤◌, ◌≡◌, ◌≢◌, refl, ap, subst, ◌∙◌, arith, false, Bool-cases, inl, inr,
  Option, none, some, List, [], ◌∷◌, All, tt, length, get_elem?, ◌==◌, ==_iff,
}
use slatedb_go.Prelude.Bytes.{Bytes}
use slatedb_go.Types.{RowEntry}
use slatedb_go.Iter.{KvIterator, IsFinite}
use slatedb_go.Iter.Merge.{HeapItem, MergeSort, less, set}
use slatedb_go.Iter.Merge.Order.{IsOnce, slot}
use slatedb_go.Iter.Merge.Streams.{first, find, HasHead, IsLeast}

abbrev pub head : List RowEntry → Option RowEntry
head [] = none
head (e ∷ l) = some e

abbrev pub tail : List RowEntry → List RowEntry
tail [] = []
tail (e ∷ l) = l

All-mono :
    (P Q : HeapItem → Type 0) (h : List HeapItem) → ((x : HeapItem) → P x → Q x) → All P h → All Q h
All-mono P Q [] f a = tt
All-mono P Q (x ∷ h) f (p, a) = (f x p, All-mono P Q h f a)

slot-All :
    (P : HeapItem → Type 0) (i : ℕ) (e : RowEntry) (h : List HeapItem)
    → All P h
    → slot i h ≡ some e
    → P (record { kv = e; index = i })
unfolding slot
slot-All P i e [] a q = cc
slot-All P i e (x ∷ h) (p, a) q = elim (Bool-cases (x.index == i)) [
  | inl s ↦
      let same : x.index ≡ i = (==_iff x.index i).0 s in
      let kv : x.kv ≡ e = ground arith in
      subst (λ (y : HeapItem). P y) (let z : x ≡ record { kv = e; index = i } = ground arith in z) p
  | inr s ↦ let later : slot i h ≡ some e = ground arith in slot-All P i e h a later
]

pub slot-none : (i : ℕ) (h : List HeapItem) → All (λ y. y.index ≢ i) h → slot i h ≡ none
unfolding slot
slot-none i [] a = refl
slot-none i (x ∷ h) (p, a) = ground (arith, slot-none i h a, ==_iff x.index i)

module _ {S : Type 0} (it : KvIterator S) (f : IsFinite it) where
  -- List `l` is what an iterator has left, its first entry in the heap; the lists start at `i`.
  abbrev pub Held : ℕ → List HeapItem → List (List RowEntry) → List S → Type 0
  Held i h [] [] = Unit
  Held i h [] (s ∷ ss) = ⊥
  Held i h (l ∷ ls) [] = ⊥
  Held i h (l ∷ ls) (s ∷ ss) = (slot i h ≡ head l) × (f.remaining s ≡ tail l) × Held (suc i) h ls ss

  -- The entries that the merge has left are those of the lists.
  pub record IsMerging (m : MergeSort S) (ls : List (List RowEntry)) : Type 0 where
    pub once : IsOnce m.heap
    pub inside : All (λ x. x.index < length m.iterators) m.heap
    pub held : Held 0 m.heap ls m.iterators

  -- Without an item in the heap nothing is left.
  pub held-nil :
      (i : ℕ) (k : Bytes) (ls : List (List RowEntry)) (ss : List S)
      → Held i [] ls ss
      → first k ls ≡ none
  unfolding first find slot
  held-nil i k [] ss h = refl
  held-nil i k (l ∷ ls) [] h = elim h [ ]
  held-nil i k ([] ∷ ls) (s ∷ ss) (a, b, h) = held-nil (suc i) k ls ss h
  held-nil i k ((e ∷ l) ∷ ls) (s ∷ ss) (a, b, h) = cc

  pub held-at :
      (i j n : ℕ) (e : RowEntry) (h : List HeapItem) (ls : List (List RowEntry)) (ss : List S)
      → i + n ≡ j
      → n < length ss
      → slot j h ≡ some e
      → Held i h ls ss
      → (t : List RowEntry) × (s : S) × HasHead e t n ls
        × (get_elem? ss n ≡ some s)
        × (f.remaining s ≡ t)
  held-at i j n e h [] [] q lt at a = elim lt [ ]
  held-at i j n e h [] (s ∷ ss) q lt at a = elim a [ ]
  held-at i j n e h (l ∷ ls) [] q lt at a = elim a [ ]
  held-at i j zero e h ([] ∷ ls) (s ∷ ss) q lt at (a, b, c) =
      let same : i ≡ j = omega arith in
      let none_here : slot j h ≡ none = subst (λ k. slot k h ≡ none) same a in cc
  held-at i j zero e h ((y ∷ l) ∷ ls) (s ∷ ss) q lt at (a, b, c) =
      let same : i ≡ j = omega arith in
      let here : slot j h ≡ some y = subst (λ k. slot k h ≡ some y) same a in
      let eq : y ≡ e = cc in (l, s, ap (λ z. z ∷ l) eq, refl, b)
  held-at i j (suc n) e h (l ∷ ls) (s ∷ ss) q lt at (a, b, c) =
      held-at (suc i) j n e h ls ss (omega arith) (omega arith) at c

  pub held-IsLeast :
      (x : HeapItem) (i : ℕ) (h : List HeapItem) (ls : List (List RowEntry)) (ss : List S)
      → All (λ y. less y x ≡ false) h
      → Held i h ls ss
      → IsLeast x.kv x.index i ls
  held-IsLeast x i h [] ss a b = tt
  held-IsLeast x i h (l ∷ ls) [] a b = elim b [ ]
  held-IsLeast x i h ([] ∷ ls) (s ∷ ss) a (b, c, d) = held-IsLeast x (suc i) h ls ss a d
  held-IsLeast x i h ((y ∷ l) ∷ ls) (s ∷ ss) a (b, c, d) =
      (slot-All (λ y. less y x ≡ false) i y h a b, held-IsLeast x (suc i) h ls ss a d)

  pub held-slots :
      (i : ℕ) (h g : List HeapItem) (ls : List (List RowEntry)) (ss : List S)
      → ((k : ℕ) → i ≤ k → slot k g ≡ slot k h)
      → Held i h ls ss
      → Held i g ls ss
  held-slots i h g [] [] q a = tt
  held-slots i h g [] (s ∷ ss) q a = a
  held-slots i h g (l ∷ ls) [] q a = a
  held-slots i h g (l ∷ ls) (s ∷ ss) q (a, b, c) =
      (q i (omega arith) ∙ a, b, held-slots (suc i) h g ls ss (λ k p. q k (omega (arith, p))) c)

  pub held-set :
      (i j n : ℕ) (h g : List HeapItem) (x : RowEntry) (t : List RowEntry) (s2 : S)
      (ls : List (List RowEntry)) (ss : List S)
      → i + n ≡ j
      → ((k : ℕ) → k ≢ j → slot k g ≡ slot k h)
      → slot j g ≡ head t
      → f.remaining s2 ≡ tail t
      → HasHead x t n ls
      → Held i h ls ss
      → Held i g (set ls n t) (set ss n s2)
  unfolding set
  held-set i j n h g x t s2 [] ss q others here rest has a = elim has [ ]
  held-set i j n h g x t s2 (l ∷ ls) [] q others here rest has a = elim a [ ]
  held-set i j zero h g x t s2 (l ∷ ls) (s ∷ ss) q others here rest has (a, b, c) =
      let same : j ≡ i = omega arith in
      (
        subst (λ k. slot k g ≡ head t) same here,
        rest,
        held-slots (suc i) h g ls ss (λ k p. others k (λ e. absurd (omega (arith, p, e)))) c,
      )
  held-set i j (suc n) h g x t s2 (l ∷ ls) (s ∷ ss) q others here rest has (a, b, c) = (
    others i (λ e. absurd (omega (arith, e))) ∙ a,
    b,
    held-set (suc i) j n h g x t s2 ls ss (omega arith) others here rest has c,
  )

  pub length-set : (n : ℕ) (s : S) (ss : List S) → length (set ss n s) ≡ length ss
  unfolding set
  length-set n s [] = refl
  length-set zero s (x ∷ ss) = refl
  length-set (suc n) s (x ∷ ss) = ap suc (length-set n s ss)
