-- ===== src/Sst/Iterator/Drain.antt =====
-- The rows that the iterator over a table gives (internal/sstable/iterator.go).
use slatedb_go.Prelude.{
  ℕ, suc, ◌+◌, ◌%◌, ◌^◌, ◌<◌, ◌≡◌, refl, ap, ◌∙◌, arith, true, false, Option, none, some, List, [],
  ◌∷◌, ◌++◌, length, map, leb,
}
use slatedb_go.Prelude.Result.{Result, ok, err, panic, ◌>>=◌, >>=-eq-ok}
use slatedb_go.Types.{RowEntry}
use slatedb_go.Types.Warn
use slatedb_go.Types.Warn.{ErrWarn}
use slatedb_go.Block.{Block}
use slatedb_go.Block.Iterator.{
  Iterator as BlockIterator, new_iterator, next_entry as next_in_block, collect as collect_block,
}
use slatedb_go.Sst.{Handle}
use slatedb_go.Sst.Index.{FlatBuffers, Index, block_meta}
use slatedb_go.Sst.Iterator.{
  TableStore, Texts, TableIterator, new_table_iterator, next_block_iter, fetched, start_block,
  after_fetch, current, next_entry, collect,
}

first_of :
    (e : Option RowEntry) (rest : Result ⊥ (List RowEntry)) (x : RowEntry) (xs : List RowEntry)
    → elim e [ none ↦ ok [] | some y ↦ (rest >>= λ ys. ok (y ∷ ys)) ] ≡ ok (x ∷ xs)
    → (e ≡ some x) × (rest ≡ ok xs)
first_of none rest x xs h = cc
first_of (some y) (ok ys) x xs h = (cc, cc)
first_of (some y) (err e) x xs h = cc
first_of (some y) panic x xs h = cc

none_of :
    (e : Option RowEntry) (rest : Result ⊥ (List RowEntry))
    → elim e [ none ↦ ok [] | some y ↦ (rest >>= λ ys. ok (y ∷ ys)) ] ≡ ok []
    → e ≡ none
none_of none rest h = refl
none_of (some y) (ok ys) h = cc
none_of (some y) (err e) h = cc
none_of (some y) panic h = cc

-- A block that gives these rows gives the first of them, and then the others.
some-collect_block :
    (b : BlockIterator) (x : RowEntry) (xs : List RowEntry)
    → collect_block (suc (suc (length xs))) b ≡ ok (x ∷ xs)
    → (c : BlockIterator) × (next_in_block b ≡ ok (c, some x))
      × (collect_block (suc (length xs)) c ≡ ok xs)
unfolding collect_block
some-collect_block b x xs all =
    let ((c, e), next, rest) = >>=-eq-ok (next_in_block b) _ all in
    let (same, others) = first_of e (collect_block (suc (length xs)) c) x xs rest in
    (c, next ∙ ap (λ t. ok (c, t)) same, others)

none-collect_block :
    (b : BlockIterator)
    → collect_block 1 b ≡ ok []
    → (c : BlockIterator) × (next_in_block b ≡ ok (c, none))
unfolding collect_block
none-collect_block b all =
    let ((c, e), next, rest) = >>=-eq-ok (next_in_block b) _ all in
    (c, next ∙ ap (λ t. ok (c, t)) (none_of e (ok []) rest))

-- The blocks from `k` on can be read, none is empty, and each iterates over its rows.
abbrev pub Reads : TableStore → Handle → Index → ℕ → List (List RowEntry) → Type 0
Reads store h x k [] = Unit
Reads store h x k (xs ∷ xss) =
    ((0 < length xs)
      × ((blk : Block) × (store.read_blocks_using_index h
              (record { start = k; end = (k + 1) % 2 ^ 64 }) x
            ≡ ok (blk ∷ []))
          × (collect_block (suc (length xs)) (new_iterator blk) ≡ ok xs)))
    × Reads store h x (k + 1) xss

unfoldable pub join : List (List RowEntry) → List RowEntry
join [] = []
join (xs ∷ xss) = xs ++ join xss

module _ (store : TableStore) (fb : FlatBuffers) (texts : Texts) (h : Handle) (x : Index) where
  abbrev state : ErrWarn → Option BlockIterator → ℕ → TableIterator
  state w o k = record {
    block_iter = o;
    warn = w;
    handle = h;
    index = x;
    from_key = none;
    next_block = k;
  }

  give :
      (f : ℕ) (w : ErrWarn) (b c : BlockIterator) (k : ℕ) (y : RowEntry)
      → next_in_block b ≡ ok (c, some y)
      → next_entry store fb texts (suc f) (state w (some b) k) ≡ ok (some y, state w (some c) k)
  unfolding next_entry current
  give f w b c k y next = rw next refl

  pass :
      (f : ℕ) (w : ErrWarn) (b c : BlockIterator) (k : ℕ)
      → next_in_block b ≡ ok (c, none)
      → (v : ErrWarn) × (next_entry store fb texts (suc (suc f)) (state w (some b) k)
          ≡ next_entry store fb texts (suc f) (state v none k))
  unfolding next_entry current
  pass f w b c k next = (Warn.merge w (some (map texts.of_block c.warn)), rw next refl)

  fetch :
      (f : ℕ) (w : ErrWarn) (k : ℕ) (y : RowEntry) (ys : List RowEntry) (xss : List (List RowEntry))
      → Reads store h x k ((y ∷ ys) ∷ xss)
      → k < length (block_meta fb x)
      → k + 1 < 2 ^ 64
      → (c : BlockIterator) × (next_entry store fb texts (suc f) (state w none k)
          ≡ ok (some y, state w (some c) (k + 1)))
        × (collect_block (suc (length ys)) c ≡ ok ys)
  unfolding next_entry current next_block_iter fetched start_block after_fetch
  fetch f w k y ys xss ((filled, (blk, read, all)), others) inside small =
      let (c, next, rest) = some-collect_block (new_iterator blk) y ys all in
      let more : leb (length (block_meta fb x)) k ≡ false = ground arith in
      let raised : (k + 1) % 2 ^ 64 ≡ k + 1 = omega arith in
      (c, rw (more, read, next, raised) refl, rest)

  finish :
      (f : ℕ) (w : ErrWarn) (k : ℕ)
      → k ≡ length (block_meta fb x)
      → next_entry store fb texts (suc f) (state w none k) ≡ ok (none, state w none k)
  unfolding next_entry current next_block_iter after_fetch
  finish f w k end = let all : leb (length (block_meta fb x)) k ≡ true = ground arith in rw all refl

  drain :
      (xss : List (List RowEntry)) (xs : List RowEntry) (f : ℕ) (w : ErrWarn) (b : BlockIterator)
      (k : ℕ)
      → collect_block (suc (length xs)) b ≡ ok xs
      → Reads store h x k xss
      → k + length xss ≡ length (block_meta fb x)
      → length (block_meta fb x) < 2 ^ 64
      → collect store fb texts (suc (length (xs ++ join xss))) (suc (suc f)) (state w (some b) k)
        ≡ ok (xs ++ join xss)
  unfolding collect join
  drain xss (y ∷ ys) f w b k all reads count small =
      let (c, next, rest) = some-collect_block b y ys all in
      rw (give (suc f) w b c k y next) (rw (drain xss ys f w c k rest reads count small) refl)
  drain [] [] f w b k all reads count small =
      let (c, next) = none-collect_block b all in
      let (v, passed) = pass f w b c k next in
      rw (passed ∙ finish f v k (omega (arith, count))) refl
  drain ([] ∷ xss) [] f w b k all reads count small = absurd (omega (arith, reads.0.0))
  drain ((y ∷ ys) ∷ xss) [] f w b k all reads count small =
      let (c, next) = none-collect_block b all in
      let (v, passed) = pass f w b c k next in
      let (e, first, rest) =
        fetch f v k y ys xss reads (omega (arith, count)) (omega (arith, count)) in
      rw (passed ∙ first)
        (rw (drain xss ys f v e (k + 1) rest reads.1 (omega (arith, count)) small) refl)

-- The index is read, and each of its blocks, of which none is empty, iterates over its rows. Then the
-- iterator over the table gives the rows of all blocks in order, and ends; two rounds are enough
-- for each call.
pub collect-new_table_iterator :
    (store : TableStore) (fb : FlatBuffers) (texts : Texts) (h : Handle) (x : Index)
    (xss : List (List RowEntry)) (f : ℕ)
    → store.read_index h ≡ ok x
    → Reads store h x 0 xss
    → length xss ≡ length (block_meta fb x)
    → length (block_meta fb x) < 2 ^ 64
    → (it : TableIterator) × (new_table_iterator store h ≡ ok it)
      × (collect store fb texts (suc (length (join xss))) (suc (suc f)) it ≡ ok (join xss))
unfolding new_table_iterator collect join
collect-new_table_iterator store fb texts h x [] f index reads count small = (
  state store fb texts h x [] none 0,
  rw index refl,
  rw (finish store fb texts h x (suc f) [] 0 count) refl,
)
collect-new_table_iterator store fb texts h x ([] ∷ xss) f index reads count small =
    absurd (omega (arith, reads.0.0))
collect-new_table_iterator store fb texts h x ((y ∷ ys) ∷ xss) f index reads count small =
    let (e, first, rest) =
      fetch store fb texts h x (suc f) [] 0 y ys xss reads (omega (arith, count)) (omega arith) in
    (
      state store fb texts h x [] none 0,
      rw index refl,
      rw first (
          rw (drain store fb texts h x xss ys f [] e 1 rest reads.1 (omega (arith, count)) small)
            refl),
    )
