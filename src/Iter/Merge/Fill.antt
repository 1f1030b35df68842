-- ===== src/Iter/Merge/Fill.antt =====
-- NewMergeSort fills the heap with the first entry of each iterator.
use slatedb_go.Prelude.{
  ℕ, suc, ◌+◌, ◌<◌, ◌≤◌, ◌≡◌, refl, sym, ap, ◌∙◌, arith, inl, inr, Option, none, some, List, [],
  ◌∷◌, All, tt, length, map, ==-refl, ==_iff, ◌≢◌, List-cases,
}
use slatedb_go.Types.{RowEntry}
use slatedb_go.Types.Warn
use slatedb_go.Types.Warn.{ErrWarn}
use slatedb_go.Iter.{KvIterator, IsFinite}
use slatedb_go.Iter.Merge.{HeapItem, push, fill}
use slatedb_go.Iter.Merge.Order.{IsOnce, slot}
use slatedb_go.Iter.Merge.Heap.{head, tail, slot-none, Held}

pub All-weaken :
    (i j : ℕ) (h : List HeapItem) → i ≤ j → All (λ x. x.index < i) h → All (λ x. x.index < j) h
All-weaken i j [] le a = tt
All-weaken i j (x ∷ h) le (p, a) = (omega (arith, le, p), All-weaken i j h le a)

apart : (i : ℕ) (h : List HeapItem) → All (λ x. x.index < i) h → All (λ y. y.index ≢ i) h
apart i [] a = tt
apart i (x ∷ h) (p, a) = ((λ e. absurd (omega (arith, p, e))), apart i h a)

push_lem :
    (e : Option RowEntry) (i : ℕ) (h : List HeapItem)
    → All (λ x. x.index < i) h
    → IsOnce h
    → All (λ x. x.index < suc i) (push e i h)
      × IsOnce (push e i h)
      × (slot i (push e i h) ≡ e)
      × ((k : ℕ) → k < i → slot k (push e i h) ≡ slot k h)
unfolding push slot
push_lem none i h a o =
    (All-weaken i (suc i) h (omega arith) a, o, slot-none i h (apart i h a), λ k p. refl)
push_lem (some e) i h a o = (
  (omega arith, All-weaken i (suc i) h (omega arith) a),
  (apart i h a, o),
  rw (==-refl i) refl,
  λ k p. ground (arith, ==_iff i k),
)

module _ {S : Type 0} (it : KvIterator S) (f : IsFinite it) (s : S) where
  next-head : (it.next_entry s).0 ≡ head (f.remaining s)
  next-head = elim (List-cases (f.remaining s)) [
    | inl e ↦ rw e (f.next-none s e)
    | inr (x, t, e) ↦ rw e (f.next-some s x t e)
  ]

  next-tail : f.remaining (it.next_entry s).1 ≡ tail (f.remaining s)
  next-tail = elim (List-cases (f.remaining s)) [
    | inl e ↦ f.remaining-none s e ∙ sym (ap tail e)
    | inr (x, t, e) ↦ f.remaining-some s x t e ∙ sym (ap tail e)
  ]

module _ {S : Type 0} (it : KvIterator S) (f : IsFinite it) where
  pub fill_lem :
      (i : ℕ) (ss : List S) (h : List HeapItem) (w : ErrWarn)
      → All (λ x. x.index < i) h
      → IsOnce h
      → let r = fill it i ss h w in
        IsOnce r.1
        × All (λ x. x.index < i + length ss) r.1
        × ((k : ℕ) → k < i → slot k r.1 ≡ slot k h)
        × Held it f i r.1 (map f.remaining ss) r.0
        × (length r.0 ≡ length ss)
  unfolding fill
  fill_lem i [] h w a o = (o, All-weaken i (i + 0) h (omega arith) a, (λ k p. refl), tt, refl)
  fill_lem i (s ∷ ss) h w a o =
      let e = (it.next_entry s).0 in
      let t = (it.next_entry s).1 in
      let (inside, once, here, others) = push_lem e i h a o in
      let (os, is, low, held, len) =
        fill_lem (suc i) ss (push e i h) (Warn.merge w (it.warnings t)) inside once in
      (
        os,
        All-weaken (suc i + length ss) (i + suc (length ss)) _ (omega arith) is,
        (λ k p. low k (omega (arith, p)) ∙ others k p),
        (low i (omega arith) ∙ here ∙ next-head it f s, next-tail it f s, held),
        ap suc len,
      )
