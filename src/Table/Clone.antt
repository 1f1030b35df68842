-- ===== src/Table/Clone.antt =====
-- Clones of the in-memory tables (slatedb/table/kvtable.go).
use slatedb_go.Prelude.{◌≡◌, refl, tt, ap, ◌∙◌, true, false, List, [], ◌∷◌, ◌++◌, All}
use mathlib.Core.List.{append_assoc, append-nil}
use slatedb_go.Prelude.Bytes.{Bytes, lt_bytes, lt_bytes_asymm}
use slatedb_go.Table.{Element, Skiplist, KvTable, set_all, clone, get, notify_wal_flushed}
use slatedb_go.Prelude.Result.{ok}
use slatedb_go.Table.Entries.{insert, IsOrderedMap, IsAscending, gt-equal}

-- Every key of the first list is below every key of the second.
IsBelow : List Element → List Element → Type 0
IsBelow [] ys = Unit {0}
IsBelow (x ∷ xs) ys = All (λ (p : Element). lt_bytes x.0 p.0 ≡ true) ys × IsBelow xs ys

insert-last :
    (xs : List Element) (k v : Bytes) → IsBelow xs ((k, v) ∷ []) → insert k v xs ≡ xs ++ (k, v) ∷ []
unfolding insert IsBelow
insert-last [] k v b = refl
insert-last ((j, w) ∷ l) k v b =
    rw (gt-equal j k b.0.0, lt_bytes_asymm j k b.0.0) (ap (λ t. (j, w) ∷ t) (insert-last l k v b.1))

IsBelow-first :
    (xs : List Element) (y : Element) (ys : List Element)
    → IsBelow xs (y ∷ ys)
    → IsBelow xs (y ∷ [])
unfolding IsBelow
IsBelow-first [] y ys b = tt
IsBelow-first (x ∷ xs) y ys b = ((b.0.0, tt), IsBelow-first xs y ys b.1)

IsBelow-rest :
    (xs : List Element) (y : Element) (ys : List Element)
    → All (λ (p : Element). lt_bytes y.0 p.0 ≡ true) ys
    → IsBelow xs (y ∷ ys)
    → IsBelow (xs ++ y ∷ []) ys
unfolding IsBelow
IsBelow-rest [] y ys a b = (a, tt)
IsBelow-rest (x ∷ xs) y ys a b = (b.0.1, IsBelow-rest xs y ys a b.1)

IsBelow-nil : (ys : List Element) → IsBelow [] ys
unfolding IsBelow
IsBelow-nil ys = tt

module _ {M : Type 0} (sk : Skiplist M) (o : IsOrderedMap sk) where
  set_all_lem :
      (m : M) (l : List Element)
      → IsAscending l
      → IsBelow (sk.front m) l
      → sk.front (set_all sk m l) ≡ sk.front m ++ l
  unfolding set_all
  set_all_lem m [] a b = rw append-nil refl
  set_all_lem m ((k, v) ∷ l) a b =
      let next = sk.set m k v in
      let here : sk.front next ≡ sk.front m ++ (k, v) ∷ [] =
        o.front-set m k v ∙ insert-last (sk.front m) k v (IsBelow-first (sk.front m) (k, v) l b) in
      let below : IsBelow (sk.front next) l = rw here (IsBelow-rest (sk.front m) (k, v) l a.0 b) in
      set_all_lem next l a.1 below ∙ rw here (rw append_assoc refl)

  -- A clone has the elements of the table, but the size 0.
  pub front-clone : (t : KvTable M) → sk.front (clone sk t).skl ≡ sk.front t.skl
  unfolding clone
  front-clone t =
      let below : IsBelow (sk.front sk.new) (sk.front t.skl) =
        rw o.front-new (IsBelow-nil (sk.front t.skl)) in
      set_all_lem sk.new (sk.front t.skl) (o.ascending t.skl) below ∙ rw o.front-new refl

  pub get-clone : (t : KvTable M) (k : Bytes) → get sk (clone sk t) k ≡ get sk t k
  unfolding get
  get-clone t k = rw (o.get-front (clone sk t).skl k, front-clone t, o.get-front t.skl k) refl

-- Clients that still wait can be notified.
pub notify_wal_flushed-waiting :
    {M : Type 0} (sk : Skiplist M) (t : KvTable M)
    → t.is_durable ≡ false
    → notify_wal_flushed sk t ≡ ok (record t { is_durable = true })
unfolding notify_wal_flushed
notify_wal_flushed-waiting sk t e = rw (e, notify_wal_flushed) refl
