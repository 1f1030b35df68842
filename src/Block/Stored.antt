-- ===== src/Block/Stored.antt =====
-- From the builder, through the bytes of the block, to the iterator.
use mathlib.Core.List.{append_assoc, append-nil}
use mathlib.Core.Path.{subst₂}
use slatedb_go.Prelude.{
  ℕ, suc, ◌+◌, ◌%◌, ◌^◌, ◌≤◌, ◌<◌, ◌≡◌, ◌⊎◌, refl, ap, sym, ◌∙◌, inl, inr, arith, Bool, true, false,
  List, [], ◌∷◌, ◌++◌, length, if◌then◌else◌, length-append, All, map, Bool-cases,
}
use slatedb_go.Prelude.Bytes.{Bytes}
use slatedb_go.Prelude.Result.{Result, ok, ◌>>=◌, >>=-eq-ok}
use slatedb_go.Compress.{Library, IsLossless, Codec}
use slatedb_go.Row
use slatedb_go.Row.{Row}
use slatedb_go.Row.RoundTrip.{encode-front}
use slatedb_go.Row.Prefix.{compute_prefix_len-nil}
use slatedb_go.BigEndian.{be_bytes}
use slatedb_go.Block.{
  Block, Builder, new_builder, add, build, cut_key, bytes_of, is_empty, cur_block_size, encode,
  decode,
}
use slatedb_go.Block.Layout.{
  Entry, Holds, Holds-new_builder, Holds-add, cut, rows_of, flat, offsets_from, add_lem,
}
use slatedb_go.Block.RoundTrip.{IsLaid, decode-encode_laid}
use slatedb_go.Block.Iterator.{new_iterator, collect}
use slatedb_go.Block.Iterator.Drain.{IsEntry, Reachable, row_entry, collect-new_iterator}

-- Additions in order, up to the first row that is refused.
unfoldable pub add_all : Builder → List Entry → Result ⊥ (Builder × Bool)
add_all b [] = ok (b, true)
add_all b ((k, r) ∷ es) = do
  (b', taken) ← add b k r
  let rest = add_all b' es
  if taken then rest else ok (b', false)

-- More than one row only within the block size.
abbrev pub IsBounded : Builder → Type 0
IsBounded b = (length b.offsets ≤ 1) ⊎ (cur_block_size b ≤ b.block_size)

pub add-IsBounded :
    (b : Builder) (k : Bytes) (r : Row) (b' : Builder) (taken : Bool)
    → IsBounded b
    → add b k r ≡ ok (b', taken)
    → IsBounded b' × (b'.block_size ≡ b.block_size)
add-IsBounded b k r b' false h e =
    let same = ((add_lem b k r b' false e).1 refl).0 in rw same (h, refl)
add-IsBounded b k r b' true h e =
    let (same, bound) = (add_lem b k r b' true e).2 refl in
    rw same (elim bound [
      | inl first ↦ (inl (rw first (omega arith)), refl)
      | inr fits ↦ (inr fits, refl)
    ])

Reachable-below : (pos : ℕ) (rs : List Row) → pos + length (flat rs) < 2 ^ 16 → Reachable pos rs
Reachable-below pos [] h = tt
Reachable-below pos (r ∷ rs) h =
    let size = length-append (Row.encode r) (flat rs) in
    (omega arith, Reachable-below (pos + length (Row.encode r)) rs (omega (arith, size)))

Reachable-Holds :
    (b : Builder) (es : List Entry)
    → Holds b es
    → IsBounded b
    → b.block_size < 2 ^ 16
    → Reachable 0 (rows_of es)
unfolding cur_block_size
Reachable-Holds b [] h bound size = tt
Reachable-Holds b (e ∷ []) h bound size = (omega arith, tt)
Reachable-Holds b (e ∷ f ∷ es) h bound size =
    Reachable-below 0 (rows_of (e ∷ f ∷ es)) (rw (← h.rows) (grind (arith, ap length h.offsets)))

add_all_lem :
    (b : Builder) (done es : List Entry) (b' : Builder)
    → Holds b done
    → IsBounded b
    → add_all b es ≡ ok (b', true)
    → Holds b' (done ++ es) × IsBounded b' × (b'.block_size ≡ b.block_size)
unfolding add_all
add_all_lem b done [] b' h bound e =
    let same : b ≡ b' = cc in rw (← same, append-nil) (h, bound, refl)
add_all_lem b done ((k, r) ∷ es) b' h bound e =
    let (p, ea, rest) = >>=-eq-ok (add b k r) _ e in
    elim (Bool-cases p.1) [
      | inl y ↦
          let taken : add b k r ≡ ok (p.0, true) = ea ∙ ap (λ t. ok (p.0, t)) y in
          let held = Holds-add b done k r p.0 h taken in
          let (bounded, size) = add-IsBounded b k r p.0 true bound taken in
          let (held', bounded', size') =
            add_all_lem p.0 (done ++ (k, r) ∷ []) es b' held bounded (rw y at rest) in
          (rw append_assoc at held', bounded', size' ∙ size)
      | inr n ↦
          let stop : ◌≡◌ {A = Result ⊥ (Builder × Bool)} (ok (p.0, false)) (ok (b', true)) =
            rw n at rest in
          cc
    ]

All-offsets :
    (bound pos : ℕ) (rs : List Row)
    → pos + length (flat rs) ≤ bound
    → bound < 2 ^ 16
    → All (λ o. o ≤ bound % 2 ^ 16) (offsets_from pos rs)
All-offsets bound pos [] h small = tt
All-offsets bound pos (r ∷ rs) h small =
    let size = length-append (Row.encode r) (flat rs) in
    (omega arith, All-offsets bound (pos + length (Row.encode r)) rs (omega (arith, size)) small)

build_lem :
    (b : Builder) (blk : Block)
    → build b ≡ ok blk
    → (blk.offsets ≡ b.offsets) × (blk.rows ≡ b.rows) × (blk.first_key ≡ bytes_of b.first_key)
unfolding build is_empty
build_lem b blk built = ground arith

-- The rows of a block with two of them or more end within the block size.
length-rows-lt :
    (b : Builder) (e f : Entry) (es : List Entry)
    → Holds b (e ∷ f ∷ es)
    → IsBounded b
    → b.block_size < 2 ^ 16
    → length b.rows < 2 ^ 16
unfolding cur_block_size
length-rows-lt b e f es h bound size = grind (arith, ap length h.offsets)

bounds-build :
    (b : Builder) (es : List Entry)
    → Holds b es
    → IsBounded b
    → b.block_size < 2 ^ 16
    → All (λ o. o ≤ length b.rows % 2 ^ 16) (offsets_from 0 (rows_of es))
bounds-build b [] h bound size = tt
bounds-build b (e ∷ []) h bound size = (omega arith, tt)
bounds-build b (e ∷ f ∷ es) h bound size =
    All-offsets (length b.rows) 0 (rows_of (e ∷ f ∷ es)) (omega (arith, ap length h.rows))
      (length-rows-lt b e f es h bound size)

-- A block that was built within the reach of its offsets is laid as the codec wants it.
IsLaid-build :
    (b : Builder) (blk : Block) (k : Bytes) (r : Row) (es : List Entry)
    → Holds b ((k, r) ∷ es)
    → IsBounded b
    → b.block_size < 2 ^ 16
    → build b ≡ ok blk
    → IsLaid blk
unfolding cur_block_size
IsLaid-build b blk k r es h bound size built =
    let (offsets, rows, _) = build_lem b blk built in
    let (more, front) = encode-front (cut_key [] k r) in
    record {
      bounds =
          subst₂ (λ n os. All (λ o. o ≤ n % 2 ^ 16) os) (ap length (sym rows))
            (sym (offsets ∙ h.offsets)) (bounds-build b ((k, r) ∷ es) h bound size);
      count = rw offsets (grind arith);
      os = offsets_from (0 + length (Row.encode (cut_key [] k r))) (cut k es);
      first = offsets ∙ h.offsets;
      more = more ++ flat (cut k es);
      front =
          rows
          ∙ h.rows
          ∙ ap (λ t. t ++ flat (cut k es))
              (front ∙ ap (λ n. be_bytes 2 n ++ more) (compute_prefix_len-nil k))
          ∙ append_assoc (be_bytes 2 0) more (flat (cut k es));
    }

-- What `add_all` leaves in a new builder.
pub add_all-new_builder :
    (size : ℕ) (es : List Entry) (b : Builder)
    → add_all (new_builder size) es ≡ ok (b, true)
    → Holds b es × IsBounded b × (b.block_size ≡ size)
unfolding new_builder
add_all-new_builder size es b e =
    add_all_lem (new_builder size) [] es b (Holds-new_builder size) (inl (omega arith)) e

-- Rows within the widths of the format, added in order to a new builder whose block size is below
-- 2 ^ 16, each of them taken: iterating the block that is built returns the keys, with the values
-- in normal form, and then ends.
pub collect-add_all :
    (size : ℕ) (e : Entry) (es : List Entry) (b : Builder) (blk : Block)
    → size < 2 ^ 16
    → All IsEntry (e ∷ es)
    → add_all (new_builder size) (e ∷ es) ≡ ok (b, true)
    → build b ≡ ok blk
    → collect (suc (suc (length es))) (new_iterator blk) ≡ ok (map row_entry (e ∷ es))
collect-add_all size (k, r) es b blk small h taken built =
    let (held, bounded, same) = add_all-new_builder size ((k, r) ∷ es) b taken in
    let (offsets, rows, _) = build_lem b blk built in
    collect-new_iterator blk k r es (offsets ∙ held.offsets) (rows ∙ held.rows)
      (Reachable-Holds b ((k, r) ∷ es) held bounded (rw same small)) h

-- The same through the bytes of the block: with lossless compressors, whatever the codec, a built
-- block whose encoding has at least 6 bytes is decoded to a block that iterates over the keys and
-- values that were added.
pub collect-decode-encode :
    (l : Library) (lossless : IsLossless l) (codec : Codec) (spare out : Bytes) (size : ℕ)
    (e : Entry) (es : List Entry) (b : Builder) (blk : Block)
    → size < 2 ^ 16
    → All IsEntry (e ∷ es)
    → add_all (new_builder size) (e ∷ es) ≡ ok (b, true)
    → build b ≡ ok blk
    → encode l blk codec ≡ ok out
    → 6 ≤ length out
    → (back : Block) × (decode l spare out codec ≡ ok back)
      × (collect (suc (suc (length es))) (new_iterator back) ≡ ok (map row_entry (e ∷ es)))
collect-decode-encode l lossless codec spare out size (k, r) es b blk small h taken built coded
      long =
    let (held, bounded, same) = add_all-new_builder size ((k, r) ∷ es) b taken in
    let (offsets, rows, _) = build_lem b blk built in
    let small' : b.block_size < 2 ^ 16 = rw same small in
    let laid = IsLaid-build b blk k r es held bounded small' built in
    (
      record blk { first_key = [] },
      decode-encode_laid l lossless blk spare out codec laid long coded,
      collect-new_iterator (record blk { first_key = [] }) k r es (offsets ∙ held.offsets)
          (rows ∙ held.rows) (Reachable-Holds b ((k, r) ∷ es) held bounded small') h,
    )
