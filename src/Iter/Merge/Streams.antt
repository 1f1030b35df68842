-- ===== src/Iter/Merge/Streams.antt =====
-- What iterators are to be merged to: the entries that each of them has left, as lists in the order
-- of the iterators.
use slatedb_go.Prelude.{
  ℕ, zero, suc, ◌+◌, ◌≡◌, refl, sym, ap, subst, arith, true, false, Bool-cases, inl, inr, Option,
  none, some, List, [], ◌∷◌, All, tt, length, if◌then◌else◌,
}
use slatedb_go.Prelude.Bytes.{Bytes, equal_bytes, lt_bytes, le_bytes, equal_bytes_refl}
use slatedb_go.Types.{Value, RowEntry}
use slatedb_go.Iter.Merge.{set, less}
use slatedb_go.Iter.Merge.Order.{le_bytes_trans, le_bytes-lt, lt-le_trans, less-false, lt_bytes-ne}

-- The value of the first entry with a key.
unfoldable pub find : Bytes → List RowEntry → Option Value
find k [] = none
find k (e ∷ l) = if equal_bytes e.key k then some e.value else find k l

abbrev pub or_else : Option Value → Option Value → Option Value
or_else none b = b
or_else (some v) b = some v

-- The value for a key in the first list that has it.
unfoldable pub first : Bytes → List (List RowEntry) → Option Value
first k [] = none
first k (l ∷ ls) = or_else (find k l) (first k ls)

-- All keys are at least `k`, or above it.
abbrev pub AtLeast : Bytes → List RowEntry → Type 0
AtLeast k = All (λ e. le_bytes k e.key ≡ true)

abbrev pub Above : Bytes → List RowEntry → Type 0
Above k = All (λ e. lt_bytes k e.key ≡ true)

-- Sorted by key, where a key may come twice.
abbrev pub IsSorted : List RowEntry → Type 0
IsSorted [] = Unit
IsSorted (e ∷ l) = AtLeast e.key l × IsSorted l

-- Strictly ascending keys.
abbrev pub IsAscending : List RowEntry → Type 0
IsAscending [] = Unit
IsAscending (e ∷ l) = Above e.key l × IsAscending l

abbrev pub total : List (List RowEntry) → ℕ
total [] = 0
total (l ∷ ls) = length l + total ls

-- The entry `x` at the head of list `j` is least among the heads, of which the first stands at `i`.
abbrev pub IsLeast : RowEntry → ℕ → ℕ → List (List RowEntry) → Type 0
IsLeast x j i [] = Unit
IsLeast x j i ([] ∷ ls) = IsLeast x j (suc i) ls
IsLeast x j i ((y ∷ l) ∷ ls) =
    (less (record { kv = y; index = i }) (record { kv = x; index = j }) ≡ false)
    × IsLeast x j (suc i) ls

-- List `j` without its head, where the lists are counted from `i`.
abbrev pub HasHead : RowEntry → List RowEntry → ℕ → List (List RowEntry) → Type 0
HasHead x t j [] = ⊥
HasHead x t zero (l ∷ ls) = l ≡ x ∷ t
HasHead x t (suc j) (l ∷ ls) = HasHead x t j ls

pub All-mono :
    (P Q : RowEntry → Type 0) (l : List RowEntry) → ((e : RowEntry) → P e → Q e) → All P l → All Q l
All-mono P Q [] f a = tt
All-mono P Q (e ∷ l) f (p, a) = (f e p, All-mono P Q l f a)

pub find-Above : (k : Bytes) (l : List RowEntry) → Above k l → find k l ≡ none
unfolding find
find-Above k [] a = refl
find-Above k (e ∷ l) (p, a) = rw (lt_bytes-ne k e.key p) (find-Above k l a)

pub first-Above : (k : Bytes) (ls : List (List RowEntry)) → All (Above k) ls → first k ls ≡ none
unfolding first
first-Above k [] a = refl
first-Above k (l ∷ ls) (p, a) = rw (find-Above k l p, first) (first-Above k ls a)

-- Taking the head off a list changes no lookup of another key.
pub first-set :
    (k : Bytes) (x : RowEntry) (t : List RowEntry) (j : ℕ) (ls : List (List RowEntry))
    → HasHead x t j ls
    → equal_bytes x.key k ≡ false
    → first k (set ls j t) ≡ first k ls
unfolding first set find
first-set k x t j [] h n = elim h [ ]
first-set k x t zero (l ∷ ls) h n =
    let gone : find k (x ∷ t) ≡ find k t = rw (n, find) refl in
    rw h (ap (λ v. or_else v (first k ls)) (sym gone))
first-set k x t (suc j) (l ∷ ls) h n = ap (or_else (find k l)) (first-set k x t j ls h n)

pub total-set :
    (x : RowEntry) (t : List RowEntry) (j : ℕ) (ls : List (List RowEntry))
    → HasHead x t j ls
    → suc (total (set ls j t)) ≡ total ls
unfolding set
total-set x t j [] h = elim h [ ]
total-set x t zero (l ∷ ls) h = rw h (omega arith)
total-set x t (suc j) (l ∷ ls) h = omega (arith, total-set x t j ls h)

pub All-set :
    (P : List RowEntry → Type 0) (x : RowEntry) (t : List RowEntry) (j : ℕ)
    (ls : List (List RowEntry))
    → (P (x ∷ t) → P t)
    → HasHead x t j ls
    → All P ls
    → All P (set ls j t)
unfolding set
All-set P x t j [] f h a = elim h [ ]
All-set P x t zero (l ∷ ls) f h (p, a) = (f (subst P h p), a)
All-set P x t (suc j) (l ∷ ls) f h (p, a) = (p, All-set P x t j ls f h a)

-- A list whose head is not below a key has no key below it.
sorted-AtLeast :
    (k : Bytes) (y : RowEntry) (l : List RowEntry)
    → le_bytes k y.key ≡ true
    → IsSorted (y ∷ l)
    → AtLeast k (y ∷ l)
sorted-AtLeast k y l h (a, s) = (
  h,
  All-mono (λ e. le_bytes y.key e.key ≡ true) (λ e. le_bytes k e.key ≡ true) l
      (λ e p. le_bytes_trans k y.key e.key h p) a,
)

-- The least entry bounds all that is left.
pub least-AtLeast :
    (x : RowEntry) (j i : ℕ) (ls : List (List RowEntry))
    → IsLeast x j i ls
    → All IsSorted ls
    → All (AtLeast x.key) ls
least-AtLeast x j i [] m s = tt
least-AtLeast x j i ([] ∷ ls) m (s, ss) = (tt, least-AtLeast x j (suc i) ls m ss)
least-AtLeast x j i ((y ∷ l) ∷ ls) (m, ms) (s, ss) =
    let (le, ix) = less-false (record { kv = y; index = i }) (record { kv = x; index = j }) m in
    (sorted-AtLeast x.key y l le s, least-AtLeast x j (suc i) ls ms ss)

-- The least entry is what its key is looked up to.
pub first-least :
    (x : RowEntry) (t : List RowEntry) (j i n : ℕ) (ls : List (List RowEntry))
    → i + n ≡ j
    → HasHead x t n ls
    → IsLeast x j i ls
    → All IsSorted ls
    → first x.key ls ≡ some x.value
unfolding first find
first-least x t j i n [] e h m s = elim h [ ]
first-least x t j i zero (l ∷ ls) e h m s =
    let here : find x.key (x ∷ t) ≡ some x.value = rw (equal_bytes_refl x.key, find) refl in
    rw h (ap (λ v. or_else v (first x.key ls)) here)
first-least x t j i (suc n) ([] ∷ ls) e h m (s, ss) =
    first-least x t j (suc i) n ls (omega arith) h m ss
first-least x t j i (suc n) ((y ∷ l) ∷ ls) e h (m, ms) (s, ss) =
    let (le, ix) = less-false (record { kv = y; index = i }) (record { kv = x; index = j }) m in
    let ne : equal_bytes x.key y.key ≡ false = elim (Bool-cases (equal_bytes x.key y.key)) [
      | inl same ↦ absurd (omega (arith, ix same, e))
      | inr other ↦ other
    ] in
    let above : Above x.key (y ∷ l) = (
      le_bytes-lt x.key y.key le ne,
      All-mono (λ e. le_bytes y.key e.key ≡ true) (λ e. lt_bytes x.key e.key ≡ true) l
          (λ e p. lt-le_trans x.key y.key e.key (le_bytes-lt x.key y.key le ne) p) s.0,
    ) in
    rw (find-Above x.key (y ∷ l) above, first)
      (first-least x t j (suc i) n ls (omega arith) h ms ss)
