-- ===== src/Block/Iterator/AtKey/Border.antt =====
-- Where an iterator at a key starts (NewIteratorAtKey of internal/sstable/block/iterator.go).
use slatedb_go.Prelude.{
  Bool, ◌⊎◌, ◌++◌, All, length-append, List, ap, some, ◌∙◌, ◌-◌, ℕ, zero, suc, ◌+◌, ◌/◌, ◌%◌, ◌^◌,
  ◌≤◌, ◌<◌, ◌≡◌, refl, sym, subst, arith, true, false, Bool-cases, inl, inr, [], ◌∷◌, length, drop,
  ltb, ltb→lt, ◌==◌, get_elem?,
}
use slatedb_go.Prelude.Bytes.{
  Bytes, compare_bytes_eq, compare_bytes_refl, equal_bytes, equal_bytes_iff, lt_bytes, le_bytes,
  lt_bytes_trans,
}
use slatedb_go.Prelude.Result.{err, ok, ◌>>=◌}
use slatedb_go.Row
use slatedb_go.Row.{RowError, Row, v0_full_key}
use slatedb_go.Search.{IsBorder, search, search_loop, search_lem}
use slatedb_go.Block.{Block}
use slatedb_go.Block.Iterator.{peeking_first, Warning, slice_from}
use slatedb_go.Block.Iterator.AtKey.{
  first_full_key, test_key, key_reached, search_keys, at_key, new_iterator_at_key,
}

le-lt : (a b c : Bytes) → le_bytes a b ≡ true → lt_bytes b c ≡ true → le_bytes a c ≡ true
le-lt a b c = ground (arith, lt_bytes_trans a b c, compare_bytes_eq a b)

le_bytes_refl : (a : Bytes) → le_bytes a a ≡ true
le_bytes_refl a = rw (compare_bytes_refl a, le_bytes) refl

-- The row behind an offset can be peeked at, and has the full key `k`.
pub record IsPeeked (b : Block) (first : Bytes) (i : ℕ) (k : Bytes) : Type 0 where
  pub offset : ℕ
  pub listed : get_elem? b.offsets i ≡ some offset
  pub inside : ltb (length b.rows % 2 ^ 16) offset ≡ false
  pub reached : ltb (length b.rows) offset ≡ false
  pub row : Row
  pub peeked : Row.peek_at_key (drop offset b.rows) first ≡ ok row
  pub full : v0_full_key {E = ⊥} row first ≡ ok k

-- A row that `firstFullKey` passes over: it cannot be peeked at, or its key is not in full.
abbrev pub IsSkipped : Bytes → ℕ → Type 0
IsSkipped rows o =
    (ltb (length rows) o ≡ false)
    × (((e : RowError) × (Row.peek_at_key (drop o rows) [] ≡ err e))
        ⊎ ((r : Row) × (Row.peek_at_key (drop o rows) [] ≡ ok r)
            × ((r.key_prefix_len == 0) ≡ false)))

-- From index `idx` on the rows of a block can be peeked at and have the keys `keys`, which ascend; the
-- row at `idx` is the first with its key in full.
pub record HasKeys (b : Block) (idx : ℕ) (first : Row) (keys : ℕ → Bytes) : Type 0 where
  pub skipped : List ℕ
  pub start : ℕ
  pub others : List ℕ
  pub offsets : b.offsets ≡ skipped ++ start ∷ others
  pub index : length skipped ≡ idx
  pub passed_over : All (IsSkipped b.rows) skipped
  pub reached : ltb (length b.rows) start ≡ false
  pub peeked : Row.peek_at_key (drop start b.rows) [] ≡ ok first
  pub whole : first.key_prefix_len ≡ 0
  pub named : keys idx ≡ first.key_suffix
  pub rows : (i : ℕ) → idx ≤ i → i < length b.offsets → IsPeeked b first.key_suffix i (keys i)
  pub ascending :
      (i j : ℕ) → idx ≤ i → i < j → j < length b.offsets → lt_bytes (keys i) (keys j) ≡ true

-- The first full key is found behind the rows that are passed over.
first_full_lem :
    (rows : Bytes) (skipped : List ℕ) (start : ℕ) (others : List ℕ) (first : Row) (i : ℕ)
    (warn : List Warning)
    → All (IsSkipped rows) skipped
    → ltb (length rows) start ≡ false
    → Row.peek_at_key (drop start rows) [] ≡ ok first
    → first.key_prefix_len ≡ 0
    → (w : List Warning) × (first_full_key rows i (skipped ++ start ∷ others) warn
        ≡ ok (w, some (first, i + length skipped)))
unfolding first_full_key slice_from
first_full_lem rows [] start others first i warn over reached peeked whole =
    let full : (first.key_prefix_len == 0) ≡ true = rw whole refl in
    let here : i + 0 ≡ i = omega arith in (warn, rw reached (rw peeked (rw full (rw here refl))))
first_full_lem rows (o ∷ skipped) start others first i warn ((inside, inl (e, bad)), over) reached
      peeked whole =
    let (w, found) =
      first_full_lem rows skipped start others first (i + 1) (warn ++ peeking_first o e ∷ []) over
        reached peeked whole in
    let here : i + suc (length skipped) ≡ i + 1 + length skipped = omega arith in
    (w, rw inside (rw bad (rw here found)))
first_full_lem rows (o ∷ skipped) start others first i warn ((inside, inr (r, read, cut)), over)
      reached peeked whole =
    let (w, found) =
      first_full_lem rows skipped start others first (i + 1) warn over reached peeked whole in
    let here : i + suc (length skipped) ≡ i + 1 + length skipped = omega arith in
    (w, rw inside (rw read (rw cut (rw here found))))

-- A border counted from `idx` on.
shifted :
    (p : ℕ → Bool) (idx n m : ℕ)
    → idx ≤ n
    → IsBorder (λ k. p (k + idx)) 0 (n - idx) m
    → IsBorder p idx n (m + idx)
shifted p idx n m le b = record {
  low = omega arith;
  high = omega (arith, b.high, le);
  before = λ k a c.
      let same : k - idx + idx ≡ k = omega (arith, a) in
      subst (λ l. p l ≡ false) same (b.before (k - idx) (omega arith) (omega (arith, a, c)));
  after = λ k a c.
      let same : k - idx + idx ≡ k = omega (arith, a) in
      subst (λ l. p l ≡ true) same (b.after (k - idx) (omega (arith, a)) (omega (arith, a, c)));
}

module _ (b : Block) (key : Bytes) (idx : ℕ) (first : Row) (keys : ℕ → Bytes)
    (h : HasKeys b idx first keys) where
  reached_lem :
      (i : ℕ) (warn : List Warning)
      → idx ≤ i
      → i < length b.offsets
      → key_reached b key first.key_suffix i warn ≡ ok (warn, le_bytes key (keys i))
  unfolding key_reached test_key slice_from
  reached_lem i warn le lt =
      let r = h.rows i le lt in
      rw (r.listed, key_reached) (rw r.inside (rw r.reached (rw r.peeked (rw r.full refl))))

  -- Where no warning is added the search is the one of package sort.
  search_keys_lem :
      (fuel i j : ℕ) (warn : List Warning)
      → i ≤ j
      → j + idx ≤ length b.offsets
      → search_keys fuel b key first.key_suffix idx i j warn
        ≡ (search_loop fuel (λ k. ok (le_bytes key (keys (k + idx)))) i j >>= λ m. ok (warn, m))
  unfolding search_keys search_loop
  search_keys_lem zero i j warn le high = refl
  search_keys_lem (suc fuel) i j warn le high = elim (Bool-cases (ltb i j)) [
    | inr e ↦ rw e refl
    | inl e ↦
        let lt = ltb→lt i j e in
        let m = (i + j) / 2 in
        let tested = reached_lem (m + idx) warn (omega arith) (omega (arith, lt, high)) in
        let left = search_keys_lem fuel i m warn (omega (arith, lt)) (omega (arith, lt, high)) in
        let right = search_keys_lem fuel (m + 1) j warn (omega (arith, lt)) high in
        elim (Bool-cases (le_bytes key (keys (m + idx)))) [
          | inl y ↦ rw e (rw tested (rw y left))
          | inr y ↦ rw e (rw tested (rw y right))
        ]
  ]

  up :
      (k l : ℕ)
      → idx ≤ k
      → k ≤ l
      → l < length b.offsets
      → le_bytes key (keys k) ≡ true
      → le_bytes key (keys l) ≡ true
  up k l low le lt e = elim (Bool-cases (k == l)) [
    | inl y ↦ let same : k ≡ l = ground arith in rw (sym same) e
    | inr y ↦ le-lt key (keys k) (keys l) e (h.ascending k l low (ground (arith, le)) lt)
  ]

  in_block : idx < length b.offsets
  in_block =
      omega (arith, h.index, ap length h.offsets, length-append h.skipped (h.start ∷ h.others))

  search_border :
      (m : ℕ) × (search {E = ⊥} (length b.offsets - idx) (λ k. ok (le_bytes key (keys (k + idx))))
        ≡ ok m)
      × IsBorder (λ k. le_bytes key (keys k)) idx (length b.offsets) (m + idx)
  search_border =
      let (m, done, border) =
        search_lem {E = ⊥} (λ k. ok (le_bytes key (keys (k + idx))))
          (λ k. le_bytes key (keys (k + idx))) (length b.offsets - idx) (λ k lt. refl)
          (λ k l le lt.
            up (k + idx) (l + idx) (omega arith) (omega (arith, le)) (omega (arith, lt))) in
      (
        m,
        done,
        shifted (λ k. le_bytes key (keys k)) idx (length b.offsets) m (omega (arith, in_block))
            border,
      )

  -- In a block some rows are passed over, until one has its key in full; from there on the rows can be
  -- peeked at and have ascending keys. Then an iterator at a key is returned. It starts at the first of
  -- these rows whose key is not below the key, or at the end if there is none; but if rows were passed
  -- over and the key is the first full one, it starts at index 0.
  pub new_iterator_at_key_lem :
      (i : ℕ) × (warn : List Warning) × (new_iterator_at_key b key
        ≡ ok (record {
          block = b;
          offset_index = i;
          warn = warn;
          first_key = some first.key_suffix;
        }))
      × (((0 < idx) × (first.key_suffix ≡ key) × (i ≡ 0))
          ⊎ IsBorder (λ k. le_bytes key (keys k)) idx (length b.offsets) i)
  unfolding new_iterator_at_key at_key search
  new_iterator_at_key_lem =
      let some_offsets : (length b.offsets == 0) ≡ false = ground (arith, in_block) in
      let (w, found_at) =
        first_full_lem b.rows h.skipped h.start h.others first 0 [] h.passed_over h.reached h.peeked
          h.whole in
      let place : 0 + length h.skipped ≡ idx = omega (arith, h.index) in
      let found : first_full_key b.rows 0 b.offsets [] ≡ ok (w, some (first, idx)) =
        rw h.offsets (found_at ∙ ap (λ k. ok (w, some (first, k))) place) in
      elim (Bool-cases (equal_bytes first.key_suffix key)) [
        | inl e ↦
            let same = (equal_bytes_iff first.key_suffix key).0 e in
            let least : le_bytes key (keys idx) ≡ true =
              subst (λ k. le_bytes key k ≡ true) (sym (h.named ∙ same)) (le_bytes_refl key) in
            let all : new_iterator_at_key b key
                ≡ ok (record {
                  block = b;
                  offset_index = 0;
                  warn = w;
                  first_key = some first.key_suffix;
                }) =
              rw (some_offsets, new_iterator_at_key) (rw found (rw (e, at_key) refl)) in
            (
              0,
              w,
              all,
              elim (Bool-cases (idx == 0)) [
                | inr over ↦ inl (ground arith, same, refl)
                | inl none_over ↦
                    let zero_index : idx ≡ 0 = ground arith in
                    inr (record {
                      low = omega (arith, zero_index);
                      high = omega arith;
                      before = λ k a c. absurd (omega (arith, c));
                      after = λ k a c. up idx k (omega arith) (omega (arith, zero_index)) c least;
                    })
              ],
            )
        | inr e ↦
            let (i, done, border) = search_border in
            let n = length b.offsets - idx in
            let ends : search_keys n b key first.key_suffix idx 0 n w ≡ ok (w, i) =
              search_keys_lem n 0 n w (omega arith) (omega (arith, in_block))
              ∙ ap (λ r. r >>= λ m. ok (w, m)) done in
            let all : new_iterator_at_key b key
                ≡ ok (record {
                  block = b;
                  offset_index = i + idx;
                  warn = w;
                  first_key = some first.key_suffix;
                }) =
              rw (some_offsets, new_iterator_at_key) (rw found (rw (e, at_key) (rw ends refl))) in
            (i + idx, w, all, inr border)
      ]
