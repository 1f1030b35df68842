-- ===== src/Iter/Merge.antt =====
-- internal/iter/merge.go: the merge of iterators by key and by their order. The heap of package
-- container/heap is the list of its items: `Push` adds one, and `Pop` removes the least by `Less`, as
-- the package documents. The items differ in their index, so there is one least item.
pub mod Order
pub mod Streams
pub mod Heap
pub mod Round
pub mod Fill
pub mod Next
pub mod Sorts
mod Samples
use Prim.Native.Nat.{compare, Ordering}
use slatedb_go.Prelude.{
  ℕ, zero, suc, Bool, true, false, Option, none, some, List, [], ◌∷◌, get_elem?, if◌then◌else◌,
}
use slatedb_go.Prelude.Bytes.{Bytes, compare_bytes, equal_bytes}
use slatedb_go.Prelude.Result.{Result, ok, err, panic, ◌>>=◌, Stuck, out_of_fuel}
use slatedb_go.Types.{RowEntry}
use slatedb_go.Types.Warn
use slatedb_go.Types.Warn.{ErrWarn}
use slatedb_go.Iter.{KvIterator}

pub record HeapItem : Type 0 where
  pub kv : RowEntry
  pub index : ℕ

pub record MergeSort (S : Type 0) : Type 0 where
  pub iterators : List S
  pub heap : List HeapItem
  pub last_key : Bytes
  pub warn : ErrWarn

-- By key, then by the index of the iterator.
pub compare_items : HeapItem → HeapItem → Ordering
compare_items a b = elim (compare_bytes a.kv.key b.kv.key) [
  | Ordering.eq ↦ compare a.index b.index
  | Ordering.lt ↦ Ordering.lt
  | Ordering.gt ↦ Ordering.gt
]

-- `Less` on two items.
pub less : HeapItem → HeapItem → Bool
less a b = elim (compare_items a b) [ Ordering.lt ↦ true | _ ↦ false ]

-- heap.Pop on the heap of `x` and `h`: the least item and the others.
pub least : HeapItem → List HeapItem → HeapItem × List HeapItem
least x [] = (x, [])
least x (y ∷ h) =
    let (lo, hi) = if less y x then (y, x) else (x, y) in
    let (m, rest) = least lo h in (m, hi ∷ rest)

-- heap.Push, if the iterator gave an entry.
pub push : Option RowEntry → ℕ → List HeapItem → List HeapItem
push none i h = h
push (some e) i h = record { kv = e; index = i } ∷ h

pub set : {A : Type 0} → List A → ℕ → A → List A
set [] i v = []
set (x ∷ xs) zero v = v ∷ xs
set (x ∷ xs) (suc i) v = x ∷ set xs i v

module _ {S : Type 0} (it : KvIterator S) where
  -- The loop of NewMergeSort, from the iterator `i` on.
  pub fill : ℕ → List S → List HeapItem → ErrWarn → List S × List HeapItem × ErrWarn
  fill i [] h w = ([], h, w)
  fill i (s ∷ ss) h w =
      let (e, t) = it.next_entry s in
      let (ts, h2, w2) = fill (suc i) ss (push e i h) (Warn.merge w (it.warnings t)) in
      (t ∷ ts, h2, w2)

  -- NewMergeSort
  pub new_merge_sort : List S → MergeSort S
  new_merge_sort ss =
      let (ts, h, w) = fill 0 ss [] [] in
      record { iterators = ts; heap = h; last_key = []; warn = w }

  -- An iterator that has ended hands over its warnings.
  pub advanced : MergeSort S → HeapItem → List HeapItem → Option RowEntry × S → MergeSort S
  advanced m item rest (none, t) = record m {
    iterators = set m.iterators item.index t;
    heap = rest;
    warn = Warn.merge m.warn (it.warnings t);
  }
  advanced m item rest (some e, t) = record m {
    iterators = set m.iterators item.index t;
    heap = push (some e) item.index rest;
  }

  -- The item was taken off the heap: the next entry of its iterator takes its place.
  pub advance : MergeSort S → HeapItem → List HeapItem → Result Stuck (MergeSort S)
  advance m item rest = elim (get_elem? m.iterators item.index) [
    | none ↦ panic
    | some s ↦ ok (advanced m item rest (it.next_entry s))
  ]

  -- NextEntry, in at most `fuel` rounds.
  pub next_entry : ℕ → MergeSort S → Result Stuck (Option RowEntry × MergeSort S)
  next_entry zero m = err out_of_fuel
  next_entry (suc fuel) m = elim m.heap [
    | [] ↦ ok (none, m)
    | x ∷ h ↦ do
      let (item, rest) = least x h
      n ← advance m item rest
      elim (equal_bytes item.kv.key m.last_key) [
        | true ↦ next_entry fuel n
        | false ↦ ok (some item.kv, record n { last_key = item.kv.key })
      ]
  ]

  -- A client's loop over NextEntry.
  pub collect : ℕ → MergeSort S → Result Stuck (List RowEntry)
  collect zero m = err out_of_fuel
  collect (suc fuel) m = do
    (e, n) ← next_entry (suc fuel) m
    elim e [ none ↦ ok [] | some x ↦ do l ← collect fuel n; ok (x ∷ l) ]
