-- ===== src/Block/Iterator/Drain.antt =====
-- An iterator over a built block returns the rows that were added.
use mathlib.Core.List.{append_assoc, append-nil}
use slatedb_go.Prelude.{
  ℕ, suc, ◌+◌, ◌%◌, ◌^◌, ◌≤◌, ◌<◌, ◌≡◌, refl, ap, sym, ◌∙◌, arith, false, Option, none, some, List,
  [], ◌∷◌, ◌++◌, length, drop, ltb, length-append, length-drop, drop-append, get_elem?,
  get_elem?-append, get_elem?-past, All, map,
}
use slatedb_go.Prelude.Bytes.{Bytes}
use slatedb_go.Prelude.Result.{ok}
use slatedb_go.Types.{RowEntry, to_value, to_value_idem}
use slatedb_go.Row
use slatedb_go.Row.{Row, v0_full_key}
use slatedb_go.Row.Prefix.{
  compute_prefix_len, compute_prefix_len-common, compute_prefix_len-nil, common-le, v0_full_key-cut,
  v0_full_key-whole,
}
use slatedb_go.Row.RoundTrip.{Fits, stored, decode-encode_append}
use slatedb_go.Block.{Block, cut_key, bytes_of}
use slatedb_go.Block.Layout.{Entry, cut, rows_of, flat, offsets_from}
use slatedb_go.Block.Iterator.{
  Iterator, Warning, new_iterator, slice_from, after_decode, at_offset, next_entry, collect,
}

-- A key and a row within the widths of the format.
pub record IsEntry (e : Entry) : Type 0 where
  pub key : length e.0 < 2 ^ 16
  pub seq : e.1.seq < 2 ^ 64
  pub expire : e.1.expire_at.unix_milli < 2 ^ 64
  pub create : e.1.created_at.unix_milli < 2 ^ 64
  pub value : length e.1.value.value < 2 ^ 32

abbrev pub row_entry : Entry → RowEntry
row_entry (k, r) = record { key = k; value = to_value r.value }

-- No row starts behind the reach of a uint16.
abbrev pub Reachable : ℕ → List Row → Type 0
Reachable pos [] = Unit
Reachable pos (r ∷ rs) = (pos < 2 ^ 16) × Reachable (pos + length (Row.encode r)) rs

Fits-cut_key : (f k : Bytes) (r : Row) → length f < 2 ^ 16 → IsEntry (k, r) → Fits (cut_key f k r) f
Fits-cut_key f k r hf e = record {
  seq = e.seq;
  expire = e.expire;
  create = e.create;
  value = e.value;
  suffix = omega (arith, length-drop (compute_prefix_len f k) k, e.key);
  prefix = omega (arith, compute_prefix_len-common f k e.key, common-le f k);
}

-- The first key of the block, once the iterator has read it.
abbrev first_or : Option Bytes → Bytes → Bytes
first_or none k = k
first_or (some f) k = f

abbrev state : Block → ℕ → List Warning → Option Bytes → Iterator
state b n w f = record { block = b; offset_index = n; warn = w; first_key = f }

after_decode_lem :
    (b : Block) (n : ℕ) (w : List Warning) (f : Option Bytes) (k : Bytes) (r : Row)
    → length (bytes_of f) < 2 ^ 16
    → length k < 2 ^ 16
    → after_decode (state b n w f) (ok (stored (cut_key (bytes_of f) k r)))
      ≡ ok (state b (n + 1) w (some (first_or f k)), some (row_entry (k, r)))
unfolding after_decode
after_decode_lem b n w none k r hf hk =
    let row = stored (cut_key [] k r) in
    let zero_len = compute_prefix_len-nil k in
    let first : v0_full_key {E = ⊥} row [] ≡ ok k =
      v0_full_key-cut [] k row (omega arith) hk refl refl in
    let again : v0_full_key {E = ⊥} row k ≡ ok k =
      v0_full_key-whole k row zero_len ∙ ap (λ m. ok (drop m k)) zero_len in
    rw first (rw again (rw (to_value_idem r.value)))
after_decode_lem b n w (some f) k r hf hk =
    let row = stored (cut_key f k r) in
    let again : v0_full_key {E = ⊥} row f ≡ ok k = v0_full_key-cut f k row hf hk refl refl in
    rw again (rw (to_value_idem r.value))

-- The iterator stands before a row.
next_entry-at :
    (b : Block) (n : ℕ) (w : List Warning) (f : Option Bytes) (k : Bytes) (r : Row)
    (pre rest : Bytes) (os ps : List ℕ) (pos : ℕ)
    → b.offsets ≡ os ++ pos % 2 ^ 16 ∷ ps
    → length os ≡ n
    → b.rows ≡ pre ++ (Row.encode (cut_key (bytes_of f) k r) ++ rest)
    → length pre ≡ pos
    → pos < 2 ^ 16
    → length (bytes_of f) < 2 ^ 16
    → IsEntry (k, r)
    → next_entry (state b n w f)
      ≡ ok (state b (n + 1) w (some (first_or f k)), some (row_entry (k, r)))
unfolding next_entry at_offset slice_from
next_entry-at b n w f k r pre rest os ps pos ho hn hr hp fits hf e =
    let row = Row.encode (cut_key (bytes_of f) k r) in
    let here : pos % 2 ^ 16 ≡ pos = omega arith in
    let offset : get_elem? b.offsets n ≡ some pos =
      rw ho (get_elem?-append n os (pos % 2 ^ 16) ps hn ∙ ap some here) in
    let inside : ltb (length b.rows) pos ≡ false =
      rw hr (ground (arith, length-append pre (row ++ rest))) in
    let behind : drop pos b.rows ≡ row ++ rest = rw hr (drop-append pos pre (row ++ rest) hp) in
    rw offset (
      rw inside (
        rw behind (
          rw
            (decode-encode_append (cut_key (bytes_of f) k r) rest (bytes_of f)
              (Fits-cut_key (bytes_of f) k r hf e))
            (after_decode_lem b n w f k r hf e.key))))

next_entry-end :
    (it : Iterator) → length it.block.offsets ≤ it.offset_index → next_entry it ≡ ok (it, none)
unfolding next_entry at_offset
next_entry-end it h = rw (get_elem?-past it.offset_index it.block.offsets h)

length-offsets_from : (pos : ℕ) (rs : List Row) → length (offsets_from pos rs) ≡ length rs
length-offsets_from pos [] = refl
length-offsets_from pos (r ∷ rs) = ap suc (length-offsets_from (pos + length (Row.encode r)) rs)

-- Behind the first row, the rest of the block.
collect_rest :
    (b : Block) (f : Bytes) (es : List Entry) (n : ℕ) (w : List Warning) (pre : Bytes) (os : List ℕ)
    (pos : ℕ)
    → b.offsets ≡ os ++ offsets_from pos (cut f es)
    → length os ≡ n
    → b.rows ≡ pre ++ flat (cut f es)
    → length pre ≡ pos
    → Reachable pos (cut f es)
    → length f < 2 ^ 16
    → All IsEntry es
    → collect (suc (length es)) (state b n w (some f)) ≡ ok (map row_entry es)
unfolding collect
collect_rest b f [] n w pre os pos ho hn hr hp reach hf h =
    let past : length b.offsets ≤ n = rw (ho, append-nil) (omega arith) in
    rw (next_entry-end (state b n w (some f)) past)
collect_rest b f ((k, r) ∷ es) n w pre os pos ho hn hr hp reach hf h =
    let row = Row.encode (cut_key f k r) in
    let next =
      next_entry-at b n w (some f) k r pre (flat (cut f es)) os
        (offsets_from (pos + length row) (cut f es)) pos ho hn hr hp reach.0 hf h.0 in
    let rest =
      collect_rest b f es (n + 1) w (pre ++ row) (os ++ pos % 2 ^ 16 ∷ []) (pos + length row)
        (ho ∙ sym (append_assoc os (pos % 2 ^ 16 ∷ []) _))
        (omega (arith, length-append os (pos % 2 ^ 16 ∷ []))) (hr ∙ sym (append_assoc pre row _))
        (omega (arith, length-append pre row)) reach.1 hf h.1 in
    rw next (rw rest)

-- The rows that the builder holds, from the first to the last.
pub collect-new_iterator :
    (b : Block) (k : Bytes) (r : Row) (es : List Entry)
    → b.offsets ≡ offsets_from 0 (rows_of ((k, r) ∷ es))
    → b.rows ≡ flat (rows_of ((k, r) ∷ es))
    → Reachable 0 (rows_of ((k, r) ∷ es))
    → All IsEntry ((k, r) ∷ es)
    → collect (suc (suc (length es))) (new_iterator b) ≡ ok (map row_entry ((k, r) ∷ es))
unfolding collect new_iterator
collect-new_iterator b k r es ho hr reach h =
    let row = Row.encode (cut_key [] k r) in
    let pos : 0 + length row ≡ length row = omega arith in
    let next =
      next_entry-at b 0 [] none k r [] (flat (cut k es)) [] _ 0 ho refl hr refl reach.0
        (omega arith) h.0 in
    let rest =
      collect_rest b k es (0 + 1) [] row (0 % 2 ^ 16 ∷ []) (0 + length row) ho refl hr (sym pos)
        reach.1 h.0.key h.1 in
    rw next (rw rest)
