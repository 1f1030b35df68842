-- ===== src/Table/Entries.antt =====
-- Lists of keys and values in the order of the keys: what package skiplist keeps.
use slatedb_go.Prelude.{
  ℕ, ◌+◌, ◌≡◌, refl, sym, ap, subst, ◌∙◌, arith, true, false, Option, none, some, List, [], ◌∷◌,
  All, length, if◌then◌else◌, Bool-cases, inl, inr,
}
use slatedb_go.Prelude.Bytes.{
  Bytes, lt_bytes, equal_bytes, equal_bytes_iff, lt_bytes_trans, compare_bytes_refl,
}
use slatedb_go.Table.{Element, Skiplist}

unfoldable pub lookup : Bytes → List Element → Option Bytes
lookup k [] = none
lookup k ((j, w) ∷ l) = if equal_bytes j k then some w else lookup k l

-- A new element in its place, or a new value.
unfoldable pub insert : Bytes → Bytes → List Element → List Element
insert k v [] = (k, v) ∷ []
insert k v ((j, w) ∷ l) =
    let rest = insert k v l in
    if equal_bytes j k
    then (k, v) ∷ l
    else if lt_bytes k j
    then (k, v) ∷ (j, w) ∷ l
    else (j, w) ∷ rest

-- The elements from a key on.
unfoldable pub from : Bytes → List Element → List Element
from k [] = []
from k ((j, w) ∷ l) = if lt_bytes j k then from k l else (j, w) ∷ l

-- Each key is below those behind it.
abbrev pub IsAscending : List Element → Type 0
IsAscending [] = Unit {0}
IsAscending ((k, v) ∷ l) = All (λ (p : Element). lt_bytes k p.0 ≡ true) l × IsAscending l

-- The documented behaviour of a skip list in the order of its keys.
pub record IsOrderedMap {M : Type 0} (sk : Skiplist M) : Type 0 where
  pub front-new : sk.front sk.new ≡ []
  pub front-set : (m : M) (k v : Bytes) → sk.front (sk.set m k v) ≡ insert k v (sk.front m)
  pub get-front : (m : M) (k : Bytes) → sk.get m k ≡ lookup k (sk.front m)
  pub find-front : (m : M) (k : Bytes) → sk.find m k ≡ from k (sk.front m)
  pub ascending : (m : M) → IsAscending (sk.front m)

pub lookup-insert :
    (k v j : Bytes) (l : List Element)
    → lookup j (insert k v l) ≡ (if equal_bytes k j then some v else lookup j l)
unfolding lookup insert
lookup-insert k v j [] = refl
lookup-insert k v j ((i, w) ∷ l) = elim (Bool-cases (equal_bytes i k)) [
  | inl e ↦ let same = (equal_bytes_iff i k).0 e in rw (e, lookup) (replaced same (lookup j l))
  | inr e ↦ elim (Bool-cases (lt_bytes k i)) [
    | inl lt ↦ rw (e, lt) refl
    | inr ge ↦ rw (e, ge, lookup-insert k v j l) (kept e (lookup j l))
  ]
]
  where
    replaced :
        i ≡ k
        → (o : Option Bytes)
        → (if equal_bytes k j then some v else o)
          ≡ (if equal_bytes k j then some v else if equal_bytes i j then some w else o)
    replaced same o = elim (Bool-cases (equal_bytes k j)) [
      | inl b ↦ rw (same, b) refl
      | inr b ↦ rw (same, b) refl
    ]

    kept :
        equal_bytes i k ≡ false
        → (o : Option Bytes)
        → (if equal_bytes i j then some w else if equal_bytes k j then some v else o)
          ≡ (if equal_bytes k j then some v else if equal_bytes i j then some w else o)
    kept e o = elim (Bool-cases (equal_bytes i j)) [
      | inr a ↦ rw a refl
      | inl a ↦ elim (Bool-cases (equal_bytes k j)) [
        | inr b ↦ rw (a, b) refl
        | inl b ↦
            let same : i ≡ k = (equal_bytes_iff i j).0 a ∙ sym ((equal_bytes_iff k j).0 b) in
            let both = (equal_bytes_iff i k).1 same in absurd (cc)
      ]
    ]

-- The bytes that a list of elements takes.
unfoldable pub total : List Element → ℕ
total [] = 0
total ((k, v) ∷ l) = length k + length v + total l

unfoldable pub held : Bytes → Option Bytes → ℕ
held k none = 0
held k (some v) = length k + length v

lt-equal : (a b : Bytes) → lt_bytes a b ≡ true → equal_bytes b a ≡ false
lt-equal a b h = elim (Bool-cases (equal_bytes b a)) [
  | inr e ↦ e
  | inl e ↦
      let same = (equal_bytes_iff b a).0 e in
      let h2 : lt_bytes a a ≡ true = subst (λ x. lt_bytes a x ≡ true) same h in
      absurd (ground (arith, compare_bytes_refl a))
]

pub gt-equal : (a b : Bytes) → lt_bytes a b ≡ true → equal_bytes a b ≡ false
gt-equal a b h = elim (Bool-cases (equal_bytes a b)) [
  | inr e ↦ e
  | inl e ↦
      let same = sym ((equal_bytes_iff a b).0 e) in
      let h2 : lt_bytes a a ≡ true = subst (λ x. lt_bytes a x ≡ true) same h in
      absurd (ground (arith, compare_bytes_refl a))
]

pub lookup-below :
    (k : Bytes) (l : List Element)
    → All (λ (p : Element). lt_bytes k p.0 ≡ true) l
    → lookup k l ≡ none
unfolding lookup
lookup-below k [] h = refl
lookup-below k ((j, w) ∷ l) h = rw (lt-equal k j h.0) (lookup-below k l h.1)

pub below_trans :
    (k j : Bytes) (l : List Element)
    → lt_bytes k j ≡ true
    → All (λ (p : Element). lt_bytes j p.0 ≡ true) l
    → All (λ (p : Element). lt_bytes k p.0 ≡ true) l
below_trans k j [] h m = m
below_trans k j ((i, w) ∷ l) h m = (lt_bytes_trans k j i h m.0, below_trans k j l h m.1)

pub total-insert :
    (k v : Bytes) (l : List Element)
    → IsAscending l
    → total (insert k v l) + held k (lookup k l) ≡ total l + length k + length v
unfolding total insert lookup held
total-insert k v [] a = omega arith
total-insert k v ((j, w) ∷ l) a = elim (Bool-cases (equal_bytes j k)) [
  | inl e ↦
      let same : length j ≡ length k = ap length ((equal_bytes_iff j k).0 e) in
      rw e (omega (arith, same))
  | inr e ↦ elim (Bool-cases (lt_bytes k j)) [
    | inl lt ↦ rw (e, lt, lookup-below k l (below_trans k j l lt a.0)) (omega arith)
    | inr ge ↦ rw (e, ge) (omega (arith, total-insert k v l a.1))
  ]
]
