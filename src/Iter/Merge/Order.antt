-- ===== src/Iter/Merge/Order.antt =====
-- The order of the items of the heap, and what `Pop` takes off it.
use slatedb_go.Prelude.{
  ℕ, ◌≤◌, ◌≡◌, refl, sym, ◌∙◌, arith, true, false, Bool-cases, ◌≢◌, ◌⊎◌, inl, inr, Option, none,
  some, List, [], ◌∷◌, All, tt, ◌==◌, if◌then◌else◌,
}
use slatedb_go.Prelude.Bytes.{
  Bytes, compare_bytes, equal_bytes, lt_bytes, le_bytes, lt_bytes_trans, compare_bytes_swap,
  compare_bytes_eq, compare_bytes_refl, equal_bytes_refl,
}
use slatedb_go.Types.{RowEntry}
use slatedb_go.Iter.Merge.{HeapItem, compare_items, less, least}

pub le_bytes_trans :
    (a b c : Bytes) → le_bytes a b ≡ true → le_bytes b c ≡ true → le_bytes a c ≡ true
unfolding compare_bytes
le_bytes_trans [] [] c p q = q
le_bytes_trans [] (y ∷ ys) [] p q = cc
le_bytes_trans [] (y ∷ ys) (z ∷ zs) p q = refl
le_bytes_trans (x ∷ xs) [] c p q = cc
le_bytes_trans (x ∷ xs) (y ∷ ys) [] p q = cc
le_bytes_trans (x ∷ xs) (y ∷ ys) (z ∷ zs) p q = ground (arith, le_bytes_trans xs ys zs)

pub le_bytes_refl : (a : Bytes) → le_bytes a a ≡ true
le_bytes_refl a = ground (arith, compare_bytes_refl a)

-- Not above, and not equal.
pub le_bytes-lt :
    (a b : Bytes) → le_bytes a b ≡ true → equal_bytes a b ≡ false → lt_bytes a b ≡ true
le_bytes-lt a b h n = ground arith

pub lt_bytes-le : (a b : Bytes) → lt_bytes a b ≡ true → le_bytes a b ≡ true
lt_bytes-le a b h = ground arith

pub lt-le_trans : (a b c : Bytes) → lt_bytes a b ≡ true → le_bytes b c ≡ true → lt_bytes a c ≡ true
lt-le_trans a b c p q = ground (arith, lt_bytes_trans a b c, compare_bytes_eq b c)

pub lt_bytes-ne : (a b : Bytes) → lt_bytes a b ≡ true → equal_bytes b a ≡ false
lt_bytes-ne a b h =
    ground (arith, compare_bytes_swap b a, compare_bytes_eq b a, compare_bytes_refl a)

pub lt_bytes-ne_right : (a b : Bytes) → lt_bytes a b ≡ true → equal_bytes a b ≡ false
lt_bytes-ne_right a b h = ground arith

pub equal_bytes-sym : (a b : Bytes) → equal_bytes a b ≡ false → equal_bytes b a ≡ false
equal_bytes-sym a b h = ground (arith, compare_bytes_eq b a, compare_bytes_refl a)

pub bytes_cases : (a b : Bytes) → (lt_bytes a b ≡ true) ⊎ (a ≡ b) ⊎ (lt_bytes b a ≡ true)
bytes_cases a b = ground (arith, compare_bytes_swap a b, compare_bytes_eq a b)

pub nil-le : (a : Bytes) → le_bytes [] a ≡ true
unfolding compare_bytes
nil-le [] = refl
nil-le (x ∷ a) = refl

-- An item that is not less has a key that is not below; at an equal key its index is not below.
pub less-false :
    (a b : HeapItem)
    → less a b ≡ false
    → (le_bytes b.kv.key a.kv.key ≡ true)
      × (equal_bytes b.kv.key a.kv.key ≡ true → b.index ≤ a.index)
unfolding less compare_items
less-false a b h = ground (
  arith,
  compare_bytes_swap a.kv.key b.kv.key,
  compare_bytes_swap b.kv.key a.kv.key,
  compare_bytes_eq b.kv.key a.kv.key,
  compare_bytes_eq a.kv.key b.kv.key,
  compare_bytes_refl a.kv.key,
)

pub less_irrefl : (a : HeapItem) → less a a ≡ false
unfolding less compare_items
less_irrefl a = ground (arith, compare_bytes_refl a.kv.key)

less_asymm : (a b : HeapItem) → less a b ≡ true → less b a ≡ false
unfolding less compare_items
less_asymm a b h = ground (
  arith,
  compare_bytes_swap b.kv.key a.kv.key,
  compare_bytes_swap a.kv.key b.kv.key,
  compare_bytes_eq b.kv.key a.kv.key,
  compare_bytes_eq a.kv.key b.kv.key,
  compare_bytes_refl a.kv.key,
)

le_bytes_antisym : (a b : Bytes) → le_bytes a b ≡ true → le_bytes b a ≡ true → a ≡ b
le_bytes_antisym a b p q =
    ground (arith, compare_bytes_swap a b, compare_bytes_swap b a, compare_bytes_eq a b)

less-not_below :
    (a b : HeapItem)
    → le_bytes b.kv.key a.kv.key ≡ true
    → (b.kv.key ≡ a.kv.key → b.index ≤ a.index)
    → less a b ≡ false
unfolding less compare_items
less-not_below a b h k = ground (
  arith,
  compare_bytes_swap a.kv.key b.kv.key,
  compare_bytes_swap b.kv.key a.kv.key,
  compare_bytes_eq a.kv.key b.kv.key,
  k,
)

-- If neither of two steps goes down, neither does their sum.
not-less_trans : (a b c : HeapItem) → less b a ≡ false → less c b ≡ false → less c a ≡ false
not-less_trans a b c p q =
    let (le1, ix1) = less-false b a p in
    let (le2, ix2) = less-false c b q in
    less-not_below c a (le_bytes_trans a.kv.key b.kv.key c.kv.key le1 le2) λ same.
      let back : le_bytes b.kv.key a.kv.key ≡ true = rw same le2 in
      let mid : a.kv.key ≡ b.kv.key = le_bytes_antisym a.kv.key b.kv.key le1 back in
      let i1 : a.index ≤ b.index = ix1 (rw mid (equal_bytes_refl b.kv.key)) in
      let j : b.kv.key ≡ c.kv.key = sym mid ∙ same in
      let i2 : b.index ≤ c.index = ix2 (rw j (equal_bytes_refl c.kv.key)) in omega (arith, i1, i2)

-- The two ways on which `least` goes.
least-cons :
    (x y : HeapItem) (h : List HeapItem) (P : HeapItem × List HeapItem → Type 0)
    → (less y x ≡ true → P ((least y h).0, x ∷ (least y h).1))
    → (less y x ≡ false → P ((least x h).0, y ∷ (least x h).1))
    → P (least x (y ∷ h))
unfolding least
least-cons x y h P below above = elim (Bool-cases (less y x)) [
  | inl e ↦ rw e (below e)
  | inr e ↦ rw e (above e)
]

-- What holds of all items holds of the one that `Pop` takes off and of the others.
pub All-least :
    (P : HeapItem → Type 0) (x : HeapItem) (h : List HeapItem)
    → P x
    → All P h
    → P (least x h).0 × All P (least x h).1
unfolding least
All-least P x [] px ph = (px, tt)
All-least P x (y ∷ h) px (py, ph) =
    least-cons x y h (λ r. P r.0 × All P r.1)
      (λ e. let (a, b) = All-least P y h py ph in (a, (px, b)))
      (λ e. let (a, b) = All-least P x h px ph in (a, (py, b)))

-- No item is less than the one that `Pop` takes off.
pub least-IsLeast :
    (x : HeapItem) (h : List HeapItem)
    → (less x (least x h).0 ≡ false) × All (λ y. less y (least x h).0 ≡ false) h
unfolding least
least-IsLeast x [] = (less_irrefl x, tt)
least-IsLeast x (y ∷ h) =
    least-cons x y h (λ r. (less x r.0 ≡ false) × All (λ z. less z r.0 ≡ false) (y ∷ h))
      (λ e.
        let (a, b) = least-IsLeast y h in
        (not-less_trans (least y h).0 y x a (less_asymm y x e), (a, b)))
      (λ e. let (a, b) = least-IsLeast x h in (a, (not-less_trans (least x h).0 x y a e, b)))

-- The entry of an iterator in the heap.
unfoldable pub slot : ℕ → List HeapItem → Option RowEntry
slot i [] = none
slot i (x ∷ h) = if x.index == i then some x.kv else slot i h

-- Each iterator has at most one item in the heap.
abbrev pub IsOnce : List HeapItem → Type 0
IsOnce [] = Unit
IsOnce (x ∷ h) = All (λ y. y.index ≢ x.index) h × IsOnce h

-- `Pop` keeps the slots.
pub least-slots :
    (x : HeapItem) (h : List HeapItem)
    → All (λ y. y.index ≢ x.index) h
    → IsOnce h
    → IsOnce ((least x h).0 ∷ (least x h).1)
      × ((i : ℕ) → slot i ((least x h).0 ∷ (least x h).1) ≡ slot i (x ∷ h))
unfolding least slot
least-slots x [] n o = ((tt, tt), λ i. refl)
least-slots x (y ∷ h) (n, ns) (m, o) =
    least-cons x y h (λ r. IsOnce (r.0 ∷ r.1) × ((i : ℕ) → slot i (r.0 ∷ r.1) ≡ slot i (x ∷ y ∷ h)))
      (λ e.
        let (a, b) = least-slots y h m o in
        let (c, d) = All-least (λ z. z.index ≢ x.index) y h n ns in
        ((((λ p. c (sym p)), a.0), (d, a.1)), λ i. ground (arith, b i)))
      (λ e.
        let (a, b) = least-slots x h ns o in
        let (c, d) = All-least (λ z. z.index ≢ y.index) x h (λ p. n (sym p)) m in
        ((((λ p. c (sym p)), a.0), (d, a.1)), λ i. ground (arith, b i)))
