-- ===== src/Search.antt =====
-- sort.Search: binary search for the first index at which a test holds. The test may fail, as a
-- function that panics does.
use native.Mathlib.Decide.{dec_lt}
use slatedb_go.Prelude.{
  ℕ, zero, suc, ◌+◌, ◌/◌, ◌≤◌, ◌<◌, ◌≡◌, refl, arith, Bool, true, false, ltb, if◌then◌else◌, inl,
  inr, Bool-cases, ltb→lt,
}
use slatedb_go.Prelude.Result.{Result, ok, ◌>>=◌}

-- The loop `for i < j`, with fuel for its rounds.
unfoldable pub search_loop : {E : Type 0} → ℕ → (ℕ → Result E Bool) → ℕ → ℕ → Result E ℕ
search_loop zero f i j = ok i
search_loop (suc fuel) f i j =
    let h = (i + j) / 2 in
    let right = search_loop fuel f (h + 1) j in
    let left = search_loop fuel f i h in
    if ltb i j then (f h >>= λ t. if t then left else right) else ok i

-- Each round shortens the range, so `n` rounds are enough.
unfoldable pub search : {E : Type 0} → ℕ → (ℕ → Result E Bool) → Result E ℕ
search n f = search_loop n f 0 n

-- `m` is the border of a test between `i` and `j`.
pub record IsBorder (p : ℕ → Bool) (i j m : ℕ) : Type 0 where
  pub low : i ≤ m
  pub high : m ≤ j
  pub before : (k : ℕ) → i ≤ k → k < m → p k ≡ false
  pub after : (k : ℕ) → m ≤ k → k < j → p k ≡ true

middle : (i j : ℕ) → i < j → ((i + j) / 2 < j) × (i ≤ (i + j) / 2) × ((i + j) / 2 + 1 ≤ j)
middle i j h = omega arith

empty : {p : ℕ → Bool} (i j : ℕ) → i ≤ j → j ≤ i → IsBorder p i j i
empty i j le ge = record {
  low = omega arith;
  high = le;
  before = λ k a b. absurd (omega arith);
  after = λ k a b. absurd (omega arith);
}

module _ {E : Type 0} (f : ℕ → Result E Bool) (p : ℕ → Bool) (n : ℕ)
    (total : (k : ℕ) → k < n → f k ≡ ok (p k))
    (up : (k l : ℕ) → k ≤ l → l < n → p k ≡ true → p l ≡ true) where
  -- What a test in the middle says of the half that is dropped.
  drop_upper : (i j h m : ℕ) → h < j → j ≤ n → p h ≡ true → IsBorder p i h m → IsBorder p i j m
  drop_upper i j h m lt hj holds b = record {
    low = b.low;
    high = omega (arith, b.high);
    before = b.before;
    after = λ k a c. elim (dec_lt k h) [
      | yes left ↦ b.after k a left
      | no right ↦ up h k (omega arith) (omega arith) holds
    ];
  }

  drop_lower :
      (i j h m : ℕ)
      → i ≤ h
      → h < j
      → j ≤ n
      → p h ≡ false
      → IsBorder p (h + 1) j m
      → IsBorder p i j m
  drop_lower i j h m le lt hj fails b = record {
    low = omega (arith, b.low);
    high = b.high;
    before = λ k a c. elim (dec_lt h k) [
      | yes right ↦ b.before k (omega arith) c
      | no left ↦ elim (Bool-cases (p k)) [
        | inl holds ↦ cc (up k h (omega arith) (omega arith) holds)
        | inr e ↦ e
      ]
    ];
    after = b.after;
  }

  search_loop_lem :
      (fuel i j : ℕ)
      → i ≤ j
      → j ≤ n
      → j ≤ i + fuel
      → (m : ℕ) × (search_loop fuel f i j ≡ ok m) × IsBorder p i j m
  unfolding search_loop
  search_loop_lem zero i j le hj hf = (i, refl, empty i j le (omega arith))
  search_loop_lem (suc fuel) i j le hj hf = elim (Bool-cases (ltb i j)) [
    | inr done ↦ (i, rw done, empty i j le (ground arith))
    | inl more ↦
        let h = (i + j) / 2 in
        let lt : i < j = ltb→lt i j more in
        let (inside, left, right) = middle i j lt in
        elim (Bool-cases (p h)) [
          | inl holds ↦
              let (m, e, b) = search_loop_lem fuel i h left (omega arith) (omega arith) in
              (
                m,
                rw more (rw (total h (omega arith)) (rw holds e)),
                drop_upper i j h m inside hj holds b,
              )
          | inr fails ↦
              let (m, e, b) = search_loop_lem fuel (h + 1) j right hj (omega arith) in
              (
                m,
                rw more (rw (total h (omega arith)) (rw fails e)),
                drop_lower i j h m left inside hj fails b,
              )
        ]
  ]

  -- On a test that does not panic, and that stays true once it is, the search returns the first
  -- index at which the test holds, or `n`.
  pub search_lem : (m : ℕ) × (search n f ≡ ok m) × IsBorder p 0 n m
  unfolding search
  search_lem = search_loop_lem n 0 n (omega arith) (omega arith) (omega arith)
