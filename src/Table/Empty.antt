-- ===== src/Table/Empty.antt =====
-- A table of size 0 (slatedb/table/kvtable.go) holds nothing.
use slatedb_go.Prelude.{
  ◌%◌, ◌^◌, ◌≤◌, ◌<◌, ◌≡◌, refl, ap, ◌∙◌, sym, arith, true, none, List, [], ◌∷◌, All, length, ◌==◌,
  ==_iff,
}
use slatedb_go.Prelude.Bytes.{Bytes}
use slatedb_go.Prelude.Result.{ok}
use slatedb_go.Types.{Value, to_bytes, is_tombstone}
use slatedb_go.Table.{Element, Skiplist, KvTable, get, read_value}
use slatedb_go.Table.Entries.{IsOrderedMap, lookup, total}
use slatedb_go.Table.Put.{IsTable, IsStored}

length-to_bytes : (v : Value) → 1 ≤ length (to_bytes v)
unfolding to_bytes is_tombstone
length-to_bytes v = ground arith

total-zero : (l : List Element) → All (λ (p : Element). IsStored p.1) l → total l ≡ 0 → l ≡ []
unfolding total
total-zero [] m e = refl
total-zero ((k, b) ∷ l) ((v, s), m) e =
    let same : length b ≡ length (to_bytes v) = ap length s in
    absurd (omega (arith, length-to_bytes v))

-- Below 2 ^ 64 bytes the size does not wrap around.
pub get-empty :
    {M : Type 0} (sk : Skiplist M) (o : IsOrderedMap sk) (t : KvTable M) (k : Bytes)
    → IsTable sk t
    → total (sk.front t.skl) < 2 ^ 64
    → (t.size == 0) ≡ true
    → get sk t k ≡ ok none
unfolding get read_value lookup
get-empty sk o t k w h e =
    let zero_size : t.size ≡ 0 = (==_iff t.size 0).0 e in
    let wrapped : total (sk.front t.skl) % 2 ^ 64 ≡ 0 = sym w.sized ∙ zero_size in
    let none_left = total-zero (sk.front t.skl) w.stored (omega arith) in
    rw (o.get-front t.skl k, none_left) refl
