-- ===== src/Sst/FirstBlock.antt =====
-- firstBlockIncludingOrAfterKey of internal/sstable/iterator.go: the binary search in the index of a
-- table, and what it finds.
mod Samples
use Prim.Native.Nat.{Ordering}
use native.Mathlib.Decide.{dec_lt}
use slatedb_go.Prelude.{
  ℕ, zero, suc, ◌+◌, ◌-◌, ◌/◌, ◌≤◌, ◌<◌, ◌≡◌, refl, sym, subst, arith, Bool, true, false, List, [],
  ◌∷◌, length, ltb, if◌then◌else◌, Bool-cases, ◌⊎◌, inl, inr, ltb→lt,
}
use slatedb_go.Prelude.Bytes.{
  Bytes, compare_bytes, compare_bytes_eq, le_bytes, lt_bytes, gt_bytes, lt_bytes_trans,
  compare_bytes_swap,
}

-- An entry of the index.
pub record BlockMeta : Type 0 where
  pub offset : ℕ
  pub first_key : Bytes

pub key_at : List BlockMeta → ℕ → Bytes
key_at [] i = []
key_at (m ∷ l) zero = m.first_key
key_at (m ∷ l) (suc i) = key_at l i

-- `high` may be -1 in the source: `bound` is high + 1. Each round shortens the range.
pub block_loop : ℕ → List BlockMeta → Bytes → ℕ → ℕ → ℕ → ℕ
block_loop zero index key low bound found = found
block_loop (suc fuel) index key low bound found =
    let mid = low + (bound - 1 - low) / 2 in
    let upper = block_loop fuel index key (mid + 1) bound mid in
    let lower = block_loop fuel index key low mid found in
    if ltb low bound
    then elim (compare_bytes (key_at index mid) key) [
      | Ordering.lt ↦ upper
      | Ordering.gt ↦ if ltb 0 mid then lower else found
      | Ordering.eq ↦ mid
    ]
    else found

pub first_block : List BlockMeta → Bytes → ℕ
first_block index key = block_loop (length index) index key 0 (length index) 0

-- The first keys grow.
abbrev pub IsIndex : List BlockMeta → Type 0
IsIndex l = (i j : ℕ) → i < j → j < length l → lt_bytes (key_at l i) (key_at l j) ≡ true

-- The block `r` is the last whose first key is not above the key, or there is none and it is the
-- first block.
pub record IsFirstBlock (l : List BlockMeta) (key : Bytes) (r : ℕ) : Type 0 where
  pub not_above : (r ≡ 0) ⊎ (le_bytes (key_at l r) key ≡ true)
  pub above : (k : ℕ) → r < k → k < length l → gt_bytes (key_at l k) key ≡ true

record Inv (l : List BlockMeta) (key : Bytes) (low bound found : ℕ) : Type 0 where
  near : low ≤ found + 1
  start : low ≡ 0 → found ≡ 0
  inside : bound ≤ length l
  not_above : (found ≡ 0) ⊎ (le_bytes (key_at l found) key ≡ true)
  above : (k : ℕ) → bound ≤ k → k < length l → gt_bytes (key_at l k) key ≡ true

Ordering-cases : (c : Ordering) → (c ≡ Ordering.lt) ⊎ (c ≡ Ordering.eq) ⊎ (c ≡ Ordering.gt)
Ordering-cases Ordering.lt = inl refl
Ordering-cases Ordering.eq = inr (inl refl)
Ordering-cases Ordering.gt = inr (inr refl)

not_ltb : (a b : ℕ) → ltb a b ≡ false → b ≤ a
not_ltb a b h = ground arith

-- A key behind one that is not below is above.
gt-behind :
    (a b key : Bytes)
    → lt_bytes a b ≡ true
    → compare_bytes a key ≡ Ordering.gt
    → gt_bytes b key ≡ true
gt-behind a b key h e =
    ground (arith, lt_bytes_trans key a b, compare_bytes_swap a key, compare_bytes_swap b key)

gt-equal :
    (a b key : Bytes)
    → lt_bytes a b ≡ true
    → compare_bytes a key ≡ Ordering.eq
    → gt_bytes b key ≡ true
gt-equal a b key h e =
    let same = compare_bytes_eq a key e in
    let below : lt_bytes key b ≡ true = subst (λ x. lt_bytes x b ≡ true) same h in
    ground (arith, compare_bytes_swap b key)

module _ (l : List BlockMeta) (key : Bytes) (grows : IsIndex l) where
  finished :
      (low bound found : ℕ) → bound ≤ low → Inv l key low bound found → IsFirstBlock l key found
  finished low bound found h i = record {
    not_above = i.not_above;
    above = λ k a b. i.above k (omega (arith, i.near)) b;
  }

  up_half :
      (low bound found mid : ℕ)
      → mid < bound
      → le_bytes (key_at l mid) key ≡ true
      → Inv l key low bound found
      → Inv l key (mid + 1) bound mid
  up_half low bound found mid h le i = record {
    near = omega arith;
    start = λ e. absurd (omega arith);
    inside = i.inside;
    not_above = inr le;
    above = i.above;
  }

  low_half :
      (low bound found mid : ℕ)
      → mid < bound
      → compare_bytes (key_at l mid) key ≡ Ordering.gt
      → Inv l key low bound found
      → Inv l key low mid found
  low_half low bound found mid h c i = record {
    near = i.near;
    start = i.start;
    inside = omega (arith, i.inside, h);
    not_above = i.not_above;
    above = λ k a b. elim (dec_lt mid k) [
      | yes lt ↦ gt-behind (key_at l mid) (key_at l k) key (grows mid k lt b) c
      | no ge ↦
          let same : mid ≡ k = omega arith in
          let gt : gt_bytes (key_at l mid) key ≡ true = rw (c, gt_bytes) refl in
          subst (λ n. gt_bytes (key_at l n) key ≡ true) same gt
    ];
  }

  block_loop_lem :
      (fuel low bound found : ℕ)
      → bound ≤ low + fuel
      → Inv l key low bound found
      → IsFirstBlock l key (block_loop fuel l key low bound found)
  unfolding block_loop
  block_loop_lem zero low bound found h i = finished low bound found (omega arith) i
  block_loop_lem (suc fuel) low bound found h i = elim (Bool-cases (ltb low bound)) [
    | inr e ↦ rw e (finished low bound found (omega (arith, not_ltb low bound e)) i)
    | inl e ↦
        let lt = ltb→lt low bound e in
        let mid = low + (bound - 1 - low) / 2 in
        let low_mid : low ≤ mid = omega arith in
        let mid_bound : mid < bound = omega arith in
        elim (Ordering-cases (compare_bytes (key_at l mid) key)) [
          | inl c ↦
              let le : le_bytes (key_at l mid) key ≡ true = rw (c, le_bytes) refl in
              rw (e, c)
                (block_loop_lem fuel (mid + 1) bound mid (omega arith)
                  (up_half low bound found mid mid_bound le i))
          | inr (inl c) ↦
              let le : le_bytes (key_at l mid) key ≡ true = rw (c, le_bytes) refl in
              let here : IsFirstBlock l key mid = record {
                not_above = inr le;
                above = λ k a b. gt-equal (key_at l mid) (key_at l k) key (grows mid k a b) c;
              } in
              rw (e, c) here
          | inr (inr c) ↦ elim (Bool-cases (ltb 0 mid)) [
            | inl p ↦
                rw (e, c, p)
                  (block_loop_lem fuel low mid found (omega arith)
                    (low_half low bound found mid mid_bound c i))
            | inr p ↦
                let first : mid ≡ 0 = omega (arith, not_ltb 0 mid p) in
                let from_start = i.start (omega arith) in
                let here : IsFirstBlock l key found = record {
                  not_above = inl from_start;
                  above = λ k a b.
                      gt-behind (key_at l mid) (key_at l k) key
                        (grows mid k (omega (arith, from_start, first, a)) b) c;
                } in
                rw (e, c, p) here
          ]
        ]
  ]

-- The search ends after as many rounds as there are blocks, at the block in which the key is if the
-- table holds it: the last whose first key is not above the key, or the first block.
pub first_block_lem :
    (l : List BlockMeta) (key : Bytes) → IsIndex l → IsFirstBlock l key (first_block l key)
unfolding first_block
first_block_lem l key grows =
    let start : Inv l key 0 (length l) 0 = record {
      near = omega arith;
      start = λ e. refl;
      inside = omega arith;
      not_above = inl refl;
      above = λ k a b. absurd (omega arith);
    } in
    block_loop_lem l key grows (length l) 0 (length l) 0 (omega arith) start
