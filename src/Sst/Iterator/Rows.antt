-- ===== src/Sst/Iterator/Rows.antt =====
-- The rows of a table, from the builder to the iterator over the table (internal/sstable).
use mathlib.Core.Path.{subst₂}
use slatedb_go.Prelude.{
  ℕ, suc, ◌+◌, ◌%◌, ◌^◌, ◌<◌, ◌≤◌, ◌≡◌, refl, sym, ap, subst, ◌∙◌, arith, tt, List, [], ◌∷◌, ◌++◌,
  All, map, length, length-append,
}
use slatedb_go.Prelude.Bytes.{Bytes}
use slatedb_go.Prelude.Result.{ok}
use slatedb_go.Types.{Value}
use slatedb_go.Compress.{Library, IsLossless}
use slatedb_go.Block.Layout.{Entry}
use slatedb_go.Block.Iterator.Drain.{IsEntry, row_entry}
use slatedb_go.State.{Deques, IsDeque}
use slatedb_go.Sst.{Handle}
use slatedb_go.Sst.Index.{FlatBuffers, IsReadBack, Index, block_meta}
use slatedb_go.Sst.Build.{SsTable, Config, Builder, new_builder, build, encode_table}
use slatedb_go.Sst.Build.Stored.{all_rows}
use slatedb_go.Sst.Build.Kept.{plain_entry}
use slatedb_go.Sst.Build.Added.{add_rows}
use slatedb_go.Sst.Read.{Blob, Has, read_index}
use slatedb_go.Sst.Blocks.Decoded.{IsLong}
use slatedb_go.Sst.Blocks.Rows.{Each, BlockReads, build-rows}
use slatedb_go.Sst.Iterator.{Texts, TableIterator, new_table_iterator, collect, over_objects}
use slatedb_go.Sst.Iterator.Drain.{Reads, join, collect-new_table_iterator}

map-append : (xs ys : List Entry) → map row_entry (xs ++ ys) ≡ map row_entry xs ++ map row_entry ys
map-append [] ys = refl
map-append (x ∷ xs) ys = ap (λ t. row_entry x ∷ t) (map-append xs ys)

join-map : (ess : List (List Entry)) → join (map (map row_entry) ess) ≡ map row_entry (all_rows ess)
unfolding join all_rows
join-map [] = refl
join-map (es ∷ ess) =
    ap (λ t. map row_entry es ++ t) (join-map ess) ∙ sym (map-append es (all_rows ess))

length-map : {A : Type 0} {B : Type 0} (f : A → B) (xs : List A) → length (map f xs) ≡ length xs
length-map f [] = refl
length-map f (x ∷ xs) = ap suc (length-map f xs)

next_index : (k : ℕ) → k + 1 ≡ suc k
next_index k = omega arith

module _ (l : Library) (fb : FlatBuffers) (spare : ℕ → Bytes) (tail : Bytes)
    (object : Handle → Blob) (h : Handle) (x : Index) where
  -- No block is empty, so there are as many rows as blocks, or more.
  blocks_le :
      (k : ℕ) (ess : List (List Entry))
      → Each (BlockReads l spare tail h.info (block_meta fb x) (object h)) k ess
      → length ess ≤ length (all_rows ess)
  unfolding all_rows
  blocks_le k [] each = omega arith
  blocks_le k (es ∷ ess) each =
      omega (arith, each.0.0, blocks_le (suc k) ess each.1, length-append es (all_rows ess))

  Each-Reads :
      (k : ℕ) (ess : List (List Entry))
      → k + length ess < 2 ^ 64
      → Each (BlockReads l spare tail h.info (block_meta fb x) (object h)) k ess
      → Reads (over_objects l fb spare tail object) h x k (map (map row_entry) ess)
  unfolding over_objects
  Each-Reads k [] small each = tt
  Each-Reads k (es ∷ ess) small each =
      let (filled, blk, read, all) = each.0 in
      let size = length-map row_entry es in
      let raised : (k + 1) % 2 ^ 64 ≡ k + 1 = omega (arith, small) in
      (
        (omega (arith, size, filled), (blk, rw raised read, rw size all)),
        subst (λ n. Reads (over_objects l fb spare tail object) h x n (map (map row_entry) ess))
            (sym (next_index k)) (Each-Reads (suc k) ess (omega (arith, small)) each.1),
      )

-- Rows are added in order to a new builder, and the table is built, with a block size below 2 ^ 16, keys and
-- values within the widths of the format, fewer than 2 ^ 64 rows, lossless compressors that do not make two bytes
-- fewer, and fewer than 2 ^ 16 probes in the filter. If the object of a handle with the metadata
-- has the bytes of the table, fewer than 2 ^ 32, with an index that is more than a checksum, then an
-- iterator over the table gives the rows, with their values in normal form, in the order in which
-- they were added, and ends; two rounds are enough for each call.
pub build-collect :
    (d : Deques) (q : IsDeque d) (l : Library) (lossless : IsLossless l) (long : IsLong l)
    (fb : FlatBuffers) (back : IsReadBack fb) (probes : ℕ → ℕ) (fits : (n : ℕ) → probes n < 2 ^ 16)
    (spare : ℕ → Bytes) (tail : Bytes) (object : Handle → Blob) (texts : Texts) (h : Handle) (f : ℕ)
    (conf : Config) (rows : List (Bytes × Value)) (b : Builder d) (t : SsTable d)
    → add_rows d l (new_builder d conf) rows ≡ ok b
    → build d l fb probes b ≡ ok t
    → b.conf.block_size < 2 ^ 16
    → All IsEntry (map plain_entry rows)
    → length rows < 2 ^ 64
    → Has (object h) (encode_table d t)
    → length (encode_table d t) < 2 ^ 32
    → 4 < t.info.index_len
    → h.info ≡ t.info
    → let store = over_objects l fb spare tail object in
      (it : TableIterator) × (new_table_iterator store h ≡ ok it)
      × (collect store fb texts (suc (length rows)) (suc (suc f)) it
          ≡ ok (map row_entry (map plain_entry rows)))
unfolding over_objects
build-collect d q l lossless long fb back probes fits spare tail object texts h f conf rows b t
      added built size entries few has small filled info =
    let (x, parts, _, index_read, count, order, blocks) =
      build-rows d q l lossless long fb back probes fits spare tail (object h) conf rows b t added
        built size entries has small filled in
    let store = over_objects l fb spare tail object in
    let here : Each (BlockReads l spare tail h.info (block_meta fb x) (object h)) 0 parts =
      subst (λ i. Each (BlockReads l spare tail i (block_meta fb x) (object h)) 0 parts) (sym info)
        blocks in
    let number : length (all_rows parts) ≡ length rows =
      ap length order ∙ length-map plain_entry rows in
    let bound : length parts < 2 ^ 64 =
      omega (arith, blocks_le l fb spare tail object h x 0 parts here, number) in
    let reads = Each-Reads l fb spare tail object h x 0 parts (omega (arith, bound)) here in
    let index : store.read_index h ≡ ok x =
      subst (λ i. read_index l i (object h) ≡ ok x) (sym info) index_read in
    let total : join (map (map row_entry) parts) ≡ map row_entry (map plain_entry rows) =
      join-map parts ∙ ap (λ t. map row_entry t) order in
    let long_enough : length (join (map (map row_entry) parts)) ≡ length rows =
      ap length total ∙ length-map row_entry (map plain_entry rows) ∙ length-map plain_entry rows in
    let (it, made, all) =
      collect-new_table_iterator store fb texts h x (map (map row_entry) parts) f index reads
        (length-map (map row_entry) parts ∙ count) (omega (arith, bound, count)) in
    (
      it,
      made,
      subst₂ (λ n r. collect store fb texts (suc n) (suc (suc f)) it ≡ ok r) long_enough total all,
    )
