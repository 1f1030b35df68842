-- ===== src/Table/Put.antt =====
-- What `put`, `get` and the size of a table (slatedb/table/kvtable.go) have to do with each other.
use slatedb_go.Prelude.{
  ℕ, ◌+◌, ◌%◌, ◌^◌, ◌≡◌, refl, tt, sym, subst, ◌∙◌, arith, Bool, true, false, some, List, [], ◌∷◌,
  All, length, if◌then◌else◌, Bool-cases, Option-cases, inl, inr,
}
use slatedb_go.Prelude.Bytes.{Bytes, lt_bytes, equal_bytes}
use slatedb_go.Prelude.Result.{ok}
use slatedb_go.Types.{
  Value, RowEntry, value_from_bytes, to_bytes, to_value, value_from_bytes-to_bytes,
  to_bytes-to_value,
}
use slatedb_go.Table.{
  Element, Skiplist, KvTable, get, put, new_table, existing_size, read_value, value_size, add_size,
}
use slatedb_go.Table.Entries.{
  lookup, insert, IsOrderedMap, lookup-insert, total, held, total-insert,
}

-- The stored bytes of a value.
abbrev pub IsStored : Bytes → Type 0
IsStored b = (v : Value) × (b ≡ to_bytes v)

-- The bytes are those of values, and the size is what they take, in 64 bits.
pub record IsTable {M : Type 0} (sk : Skiplist M) (t : KvTable M) : Type 0 where
  pub stored : All (λ (p : Element). IsStored p.1) (sk.front t.skl)
  pub sized : t.size ≡ total (sk.front t.skl) % 2 ^ 64

All-if :
    (P : Bytes → Type 0) (c : Bool) (xs ys : List Element)
    → All (λ (p : Element). P p.1) xs
    → All (λ (p : Element). P p.1) ys
    → All (λ (p : Element). P p.1) (if c then xs else ys)
All-if P true xs ys m n = m
All-if P false xs ys m n = n

All-insert :
    (P : Bytes → Type 0) (k v : Bytes) (l : List Element)
    → P v
    → All (λ (p : Element). P p.1) l
    → All (λ (p : Element). P p.1) (insert k v l)
unfolding insert
All-insert P k v [] p m = (p, tt)
All-insert P k v ((j, w) ∷ l) p m =
    let rest = All-insert P k v l p m.1 in
    All-if P (equal_bytes j k) _ _ (p, m.1) (All-if P (lt_bytes k j) _ _ (p, m) (m.0, rest))

lookup-stored :
    (k : Bytes) (l : List Element) (b : Bytes)
    → All (λ (p : Element). IsStored p.1) l
    → lookup k l ≡ some b
    → IsStored b
unfolding lookup
lookup-stored k [] b m e = absurd (cc)
lookup-stored k ((j, w) ∷ l) b m e = elim (Bool-cases (equal_bytes j k)) [
  | inl h ↦ let same : w ≡ b = cc in subst IsStored same m.0
  | inr h ↦ let rest : lookup k l ≡ some b = cc in lookup-stored k l b m.1 rest
]

module _ {M : Type 0} (sk : Skiplist M) (o : IsOrderedMap sk) where
  pub new_table-IsTable : IsTable sk (new_table sk)
  unfolding new_table total
  new_table-IsTable = record { stored = rw o.front-new tt; sized = rw o.front-new refl }

  -- What takes up space under a key.
  existing_size_lem :
      (t : KvTable M) (key : Bytes)
      → IsTable sk t
      → existing_size sk t key ≡ ok (held key (lookup key (sk.front t.skl)))
  unfolding existing_size get read_value value_size held
  existing_size_lem t key w = elim (Option-cases (lookup key (sk.front t.skl))) [
    | inl e ↦ rw (o.get-front t.skl key) (rw e refl)
    | inr (b, e) ↦
        let (v, s) = lookup-stored key (sk.front t.skl) b w.stored e in
        let read : value_from_bytes b ≡ ok (to_value v) = rw s (value_from_bytes-to_bytes v) in
        let size : to_bytes (to_value v) ≡ b = to_bytes-to_value v ∙ sym s in
        rw (o.get-front t.skl key) (rw (e, read, size) refl)
  ]

  add_size_lem :
      (size new old after : ℕ)
      → after + old ≡ size + new
      → add_size (size % 2 ^ 64) new old ≡ after % 2 ^ 64
  unfolding add_size
  add_size_lem size new old after h = omega arith

  get-set :
      (t : KvTable M) (e : RowEntry) (n : ℕ) (k : Bytes)
      → get sk (record t { skl = sk.set t.skl e.key (to_bytes e.value); size = n }) k
        ≡ (if equal_bytes e.key k then ok (some (to_value e.value)) else get sk t k)
  unfolding get read_value
  get-set t e n k =
      let b = to_bytes e.value in
      let found : sk.get (sk.set t.skl e.key b) k
          ≡ (if equal_bytes e.key k then some b else sk.get t.skl k) =
        rw (o.get-front (sk.set t.skl e.key b) k, o.front-set t.skl e.key b, o.get-front t.skl k)
          (lookup-insert e.key b k (sk.front t.skl)) in
      elim (Bool-cases (equal_bytes e.key k)) [
        | inl same ↦ rw found (rw same (rw (value_from_bytes-to_bytes e.value) refl))
        | inr other ↦ rw found (rw other refl)
      ]

  -- Whatever the entry, `put` does not panic and returns the size of the entry; the table stays well
  -- formed; the key then has the value of the entry, in normal form, and the other keys have theirs.
  pub put_lem :
      (t : KvTable M) (e : RowEntry)
      → IsTable sk t
      → (u : KvTable M) × (put sk t e ≡ ok (u, length e.key + length (to_bytes e.value)))
        × IsTable sk u
        × ((k : Bytes)
            → get sk u k
              ≡ (if equal_bytes e.key k then ok (some (to_value e.value)) else get sk t k))
  unfolding put
  put_lem t e w =
      let b = to_bytes e.value in
      let new = length e.key + length b in
      let old = held e.key (lookup e.key (sk.front t.skl)) in
      let u : KvTable M = record t { skl = sk.set t.skl e.key b; size = add_size t.size new old } in
      let done : put sk t e ≡ ok (u, new) = rw (existing_size_lem t e.key w, put) refl in
      let stored : All (λ (p : Element). IsStored p.1) (sk.front u.skl) =
        rw (o.front-set t.skl e.key b)
          (All-insert IsStored e.key b (sk.front t.skl) (e.value, refl) w.stored) in
      let balance = total-insert e.key b (sk.front t.skl) (o.ascending t.skl) in
      let after = total (insert e.key b (sk.front t.skl)) in
      let sized : u.size ≡ total (sk.front u.skl) % 2 ^ 64 =
        rw (w.sized, o.front-set t.skl e.key b)
          (add_size_lem (total (sk.front t.skl)) new old after (omega (arith, balance))) in
      (u, done, record { stored = stored; sized = sized }, get-set t e (add_size t.size new old))
