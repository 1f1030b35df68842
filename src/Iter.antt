-- ===== src/Iter.antt =====
-- internal/iter/entry.go: the interface of the iterators over entries, and the iterator over entries
-- that are given.
pub mod Merge
use slatedb_go.Prelude.{
  ℕ, zero, suc, ◌+◌, ◌≡◌, refl, ap, ◌∙◌, arith, Bool, Bool-cases, inl, inr, Option, none, some,
  List, [], ◌∷◌, ◌++◌, length, get_elem?, drop, ltb, if◌then◌else◌,
}
use slatedb_go.Prelude.Bytes.{Bytes}
use slatedb_go.Types.{Value, RowEntry, kind_key_value}
use slatedb_go.Types.Warn.{ErrWarn}

-- An iterator whose state is of type `S`: the next entry, if any, with the state behind it.
pub record KvIterator (S : Type 0) : Type 0 where
  pub next_entry : S → Option RowEntry × S
  pub warnings : S → Option ErrWarn

-- The entries that an iterator has left are given one by one, and then none.
pub record IsFinite {S : Type 0} (it : KvIterator S) : Type 0 where
  pub remaining : S → List RowEntry
  pub next-none : (s : S) → remaining s ≡ [] → (it.next_entry s).0 ≡ none
  pub remaining-none : (s : S) → remaining s ≡ [] → remaining (it.next_entry s).1 ≡ []
  pub next-some :
      (s : S) (x : RowEntry) (l : List RowEntry)
      → remaining s ≡ x ∷ l
      → (it.next_entry s).0 ≡ some x
  pub remaining-some :
      (s : S) (x : RowEntry) (l : List RowEntry)
      → remaining s ≡ x ∷ l
      → remaining (it.next_entry s).1 ≡ l

pub record EntryIterator : Type 0 where
  pub entries : List RowEntry
  pub index : ℕ

pub new_entry_iterator : List RowEntry → EntryIterator
new_entry_iterator l = record { entries = l; index = 0 }

entry_at : EntryIterator → Option RowEntry → Option RowEntry × EntryIterator
entry_at k none = (none, k)
entry_at k (some e) = (some e, record k { index = suc k.index })

-- The read is in range exactly below the length.
pub entry_next : EntryIterator → Option RowEntry × EntryIterator
unfolding entry_at
entry_next k = entry_at k (get_elem? k.entries k.index)

pub add : EntryIterator → Bytes → Bytes → EntryIterator
add k key value = record k {
  entries =
      k.entries
      ++ record { key = key; value = record { value = value; kind = kind_key_value } } ∷ [];
}

pub len : EntryIterator → ℕ
len k = length k.entries

abbrev pub entry_iterator : KvIterator EntryIterator
entry_iterator = record { next_entry = entry_next; warnings = λ k. none }

drop-nil_past : (l : List RowEntry) (i : ℕ) → drop i l ≡ [] → get_elem? l i ≡ none
drop-nil_past [] i h = refl
drop-nil_past (x ∷ l) zero h = cc
drop-nil_past (x ∷ l) (suc i) h = drop-nil_past l i h

drop-at :
    (l : List RowEntry) (i : ℕ) (x : RowEntry) (t : List RowEntry)
    → drop i l ≡ x ∷ t
    → (get_elem? l i ≡ some x) × (drop (suc i) l ≡ t)
drop-at [] zero x t h = cc
drop-at [] (suc i) x t h = cc
drop-at (y ∷ l) zero x t h = let same : y ≡ x = cc in let rest : l ≡ t = cc in (ap some same, rest)
drop-at (y ∷ l) (suc i) x t h = drop-at l i x t h

abbrev pub left : EntryIterator → List RowEntry
left k = drop k.index k.entries

pub entry_next-none : (k : EntryIterator) → left k ≡ [] → entry_next k ≡ (none, k)
unfolding entry_next
entry_next-none k h = rw (drop-nil_past k.entries k.index h, entry_at) refl

pub entry_next-some :
    (k : EntryIterator) (x : RowEntry) (l : List RowEntry)
    → left k ≡ x ∷ l
    → ((entry_next k).0 ≡ some x) × (left (entry_next k).1 ≡ l)
unfolding entry_next
entry_next-some k x l h =
    let (here, rest) = drop-at k.entries k.index x l h in rw (here, entry_at) (refl, rest)

-- The iterator over given entries is one of the interface: it gives each entry once, in order.
abbrev pub finite_entry_iterator : IsFinite entry_iterator
finite_entry_iterator = record {
  remaining = left;
  next-none = λ k h. ap (λ r. r.0) (entry_next-none k h);
  remaining-none = λ k h. ap (λ r. left r.1) (entry_next-none k h) ∙ h;
  next-some = λ k x l h. (entry_next-some k x l h).0;
  remaining-some = λ k x l h. (entry_next-some k x l h).1;
}
