-- ===== src/Block/Iterator/AtKey/Samples.antt =====
-- An iterator at the second key of a block whose first offset is corrupt.
use slatedb_go.Search.{IsBorder}
use slatedb_go.Block.Iterator.{Warning}
use slatedb_go.Prelude.{
  List, ◌≤◌, tt, ℕ, zero, suc, ◌<◌, sym, subst, inl, inr, ◌⊎◌, some, true, arith, ◌≡◌, refl, [],
  ◌∷◌,
}
use slatedb_go.Prelude.Bytes.{Bytes, compare_bytes, lt_bytes, le_bytes}
use slatedb_go.Prelude.Result.{ok}
use slatedb_go.BigEndian.{read_be, be_value}
use slatedb_go.Row
use slatedb_go.Row.{Row, short_peek, empty_row, v0_full_key}
use slatedb_go.Block.{Block}
use slatedb_go.Block.Iterator.AtKey.{new_iterator_at_key}
use slatedb_go.Block.Iterator.AtKey.Border.{HasKeys, IsPeeked, new_iterator_at_key_lem}

abbrev block : Block
block = record {
  first_key = 1 ∷ 2 ∷ [];
  rows =
      0 ∷ 0 ∷ 0 ∷ 2 ∷ 1 ∷ 2 ∷ 0 ∷ 0 ∷ 0 ∷ 0 ∷ 0 ∷ 0 ∷ 0 ∷ 0 ∷ 0 ∷ 0 ∷ 0 ∷ 0 ∷ 1 ∷ 7 ∷ 0 ∷ 1 ∷ 0 ∷ 1
      ∷ 3 ∷ 0 ∷ 0 ∷ 0 ∷ 0 ∷ 0 ∷ 0 ∷ 0 ∷ 0 ∷ 1 ∷ [];
  offsets = 32 ∷ 0 ∷ 20 ∷ [];
}

one_or_two : (i : ℕ) → 1 ≤ i → i < 3 → (i ≡ 1) ⊎ (i ≡ 2)
one_or_two zero low lt = absurd (omega (arith, low))
one_or_two (suc zero) low lt = inl refl
one_or_two (suc (suc zero)) low lt = inr refl
one_or_two (suc (suc (suc n))) low lt = absurd (omega (arith, lt))

abbrev keys : ℕ → Bytes
keys zero = []
keys (suc zero) = 1 ∷ 2 ∷ []
keys (suc (suc n)) = 1 ∷ 3 ∷ []

abbrev first : Row
first = record empty_row { key_suffix = 1 ∷ 2 ∷ [] }

block-HasKeys : HasKeys block 1 first keys
unfolding Row.peek_at_key Row.decode_key v0_full_key read_be be_value compare_bytes
block-HasKeys = record {
  skipped = 32 ∷ [];
  index = refl;
  passed_over = ((refl, inl (short_peek, refl)), tt);
  start = 0;
  others = 20 ∷ [];
  offsets = refl;
  reached = refl;
  peeked = refl;
  whole = refl;
  named = refl;
  rows = λ i low lt. elim (one_or_two i low lt) [
    | inl e ↦
        subst (λ k. IsPeeked block (1 ∷ 2 ∷ []) k (keys k)) (sym e)
          (record {
            offset = 0;
            listed = refl;
            inside = refl;
            reached = refl;
            row = first;
            peeked = refl;
            full = refl;
          })
    | inr e ↦
        subst (λ k. IsPeeked block (1 ∷ 2 ∷ []) k (keys k)) (sym e)
          (record {
            offset = 20;
            listed = refl;
            inside = refl;
            reached = refl;
            row = record empty_row { key_prefix_len = 1; key_suffix = 3 ∷ [] };
            peeked = refl;
            full = refl;
          })
  ];
  ascending = λ i j least lt high.
      let low : i ≡ 1 = omega (arith, least, lt, high) in
      let top : j ≡ 2 = omega (arith, least, lt, high) in
      subst (λ k. lt_bytes (keys k) (keys j) ≡ true) (sym low)
        (subst (λ k. lt_bytes (1 ∷ 2 ∷ []) (keys k) ≡ true) (sym top) refl);
}

new_iterator_at_key_lem_example :
    (i : ℕ) × (warn : List Warning) × (new_iterator_at_key block (1 ∷ 3 ∷ [])
      ≡ ok (record { block = block; offset_index = i; warn = warn; first_key = some (1 ∷ 2 ∷ []) }))
    × (((0 < 1) × (first.key_suffix ≡ 1 ∷ 3 ∷ []) × (i ≡ 0))
        ⊎ IsBorder (λ k. le_bytes (1 ∷ 3 ∷ []) (keys k)) 1 3 i)
new_iterator_at_key_lem_example =
    new_iterator_at_key_lem block (1 ∷ 3 ∷ []) 1 first keys block-HasKeys
