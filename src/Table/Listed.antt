-- ===== src/Table/Listed.antt =====
-- An ordered map made of a list, to show that what is assumed of package skiplist can be met.
use slatedb_go.Prelude.{
  ◌≡◌, refl, tt, subst, arith, true, false, List, [], ◌∷◌, All, Bool-cases, inl, inr,
}
use slatedb_go.Prelude.Bytes.{Bytes, lt_bytes, equal_bytes, equal_bytes_iff, compare_bytes_swap}
use slatedb_go.Table.{Element, Skiplist}
use slatedb_go.Table.Entries.{lookup, insert, from, IsAscending, IsOrderedMap, below_trans}

lt_or : (a b : Bytes) → equal_bytes a b ≡ false → lt_bytes b a ≡ false → lt_bytes a b ≡ true
lt_or a b e h = ground (arith, compare_bytes_swap a b)

above-insert :
    (j k v : Bytes) (l : List Element)
    → lt_bytes j k ≡ true
    → All (λ (p : Element). lt_bytes j p.0 ≡ true) l
    → All (λ (p : Element). lt_bytes j p.0 ≡ true) (insert k v l)
unfolding insert
above-insert j k v [] h m = (h, tt)
above-insert j k v ((i, w) ∷ l) h m = elim (Bool-cases (equal_bytes i k)) [
  | inl e ↦ rw e (h, m.1)
  | inr e ↦ elim (Bool-cases (lt_bytes k i)) [
    | inl lt ↦ rw (e, lt) (h, m)
    | inr ge ↦ rw (e, ge) (m.0, above-insert j k v l h m.1)
  ]
]

pub insert-IsAscending :
    (k v : Bytes) (l : List Element) → IsAscending l → IsAscending (insert k v l)
unfolding insert
insert-IsAscending k v [] a = (tt, tt)
insert-IsAscending k v ((j, w) ∷ l) a = elim (Bool-cases (equal_bytes j k)) [
  | inl e ↦
      let above =
        subst (λ x. All (λ (p : Element). lt_bytes x p.0 ≡ true) l) ((equal_bytes_iff j k).0 e)
          a.0 in
      rw e (above, a.1)
  | inr e ↦ elim (Bool-cases (lt_bytes k j)) [
    | inl lt ↦ rw (e, lt) ((lt, below_trans k j l lt a.0), a)
    | inr ge ↦ rw (e, ge) (above-insert j k v l (lt_or j k e ge) a.0, insert-IsAscending k v l a.1)
  ]
]

abbrev pub Listed : Type 0
Listed = (l : List Element) × IsAscending l

abbrev pub listed : Skiplist Listed
listed = record {
  new = ([], tt);
  get = λ m k. lookup k m.0;
  set = λ m k v. (insert k v m.0, insert-IsAscending k v m.0 m.1);
  front = λ m. m.0;
  find = λ m k. from k m.0;
}

pub listed-IsOrderedMap : IsOrderedMap listed
listed-IsOrderedMap = record {
  front-new = refl;
  front-set = λ m k v. refl;
  get-front = λ m k. refl;
  find-front = λ m k. refl;
  ascending = λ m. m.1;
}
