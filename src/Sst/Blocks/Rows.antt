-- ===== src/Sst/Blocks/Rows.antt =====
-- The rows of a table, from the builder to its blocks (internal/sstable/builder.go and decode.go).
use mathlib.Core.List.{append_assoc}
use mathlib.Core.Path.{subst₂}
use slatedb_go.Prelude.{
  ℕ, suc, ◌+◌, ◌^◌, ◌<◌, ◌≡◌, refl, sym, ap, subst, ◌∙◌, arith, tt, Option, some, List, [], ◌∷◌,
  ◌++◌, All, map, length, length-append, get_elem?,
}
use slatedb_go.Prelude.Bytes.{Bytes}
use slatedb_go.Prelude.Result.{ok, ok_injective}
use slatedb_go.Types.{Value}
use slatedb_go.Bloom.{Filter}
use slatedb_go.Compress.{Library, IsLossless}
use slatedb_go.Sst.FirstBlock.{BlockMeta}
use slatedb_go.Block.{Block}
use slatedb_go.Block.Layout.{Entry}
use slatedb_go.Sst.Blocks.Decoded.{IsLong, All-part, length-Stored, decoded}
use slatedb_go.Block.Iterator.{new_iterator, collect}
use slatedb_go.Block.Iterator.Drain.{IsEntry, row_entry}
use slatedb_go.State.{Deques, IsDeque}
use slatedb_go.Sst.{Info}
use slatedb_go.Sst.Index.{FlatBuffers, IsReadBack, Index, block_meta}
use slatedb_go.Sst.Build.{
  SsTable, Config, Builder, concat, new_builder, build, info_of, footer, encode_table,
}
use slatedb_go.Sst.Build.Laid.{concat-snoc}
use slatedb_go.Sst.Build.Stored.{all_rows}
use slatedb_go.Sst.Build.Kept.{Kept, plain_entry, new_builder-Kept}
use slatedb_go.Sst.Build.Added.{add_rows, add_rows-Kept}
use slatedb_go.Sst.Build.Ended.{concat-append, IsLaid-Kept, Ended, ended}
use slatedb_go.Sst.Build.Readable.{table_of, build-parts, build-read}
use slatedb_go.Sst.Read.{Blob, Has, read_info, read_index}
use slatedb_go.Sst.Blocks.{read_blocks}
use slatedb_go.Sst.Blocks.Found.{found}
use slatedb_go.Sst.Blocks.One.{read_blocks-one}

-- The predicate holds of each element, with its place.
abbrev pub Each : (ℕ → List Entry → Type 0) → ℕ → List (List Entry) → Type 0
Each P k [] = Unit
Each P k (es ∷ ess) = P k es × Each P (suc k) ess

each :
    (P : ℕ → List Entry → Type 0) (k : ℕ) (ess : List (List Entry))
    → ((i : ℕ) (es : List Entry) → get_elem? ess i ≡ some es → P (k + i) es)
    → Each P k ess
each P k [] all = tt
each P k (es ∷ ess) all = (
  subst (λ n. P n es) (omega arith) (all 0 es refl),
  each P (suc k) ess (λ i x e. subst (λ n. P n x) (omega arith) (all (suc i) x e)),
)

-- The block `k` is read, and has these rows.
abbrev pub BlockReads :
    Library → (ℕ → Bytes) → Bytes → Info → List BlockMeta → Blob → ℕ → List Entry → Type 0
BlockReads l spare tail info metas o k es =
    (0 < length es)
    × (blk : Block) × (read_blocks l spare tail info metas (record { start = k; end = k + 1 }) o
        ≡ ok (blk ∷ []))
    × (collect (suc (length es)) (new_iterator blk) ≡ ok (map row_entry es))

module _ (d : Deques) (q : IsDeque d) (l : Library) (lossless : IsLossless l) (long : IsLong l)
    (fb : FlatBuffers) (back : IsReadBack fb) (probes : ℕ → ℕ)
    (fits : (n : ℕ) → probes n < 2 ^ 16) where
  -- What stands behind the blocks of rows.
  abbrev behind : Builder d → Bytes → Bytes → Bytes → Bytes
  behind c blk filter index =
      filter ++ (index ++ footer d fb c ((blk ++ filter) ++ index) (info_of d c blk filter index))

  table_bytes :
      (front : List Bytes) (b c : Builder d) (blk filter index : Bytes) (bloom : Option Filter)
      (rows : List Entry) (e : Ended d l front b c blk rows)
      → concat front ++ encode_table d (table_of d l fb c blk bloom filter index)
        ≡ concat e.blocks ++ behind c blk filter index
  unfolding encode_table
  table_bytes front b c blk filter index bloom rows e =
      let last =
        ((blk ++ filter) ++ index)
        ++ footer d fb c ((blk ++ filter) ++ index) (info_of d c blk filter index) in
      let items : concat (d.items (d.push_back c.blocks last)) ≡ concat (d.items b.blocks) ++ last =
        rw (q.items-push_back last c.blocks, concat-snoc (d.items c.blocks) last)
          (ap (λ t. concat (d.items t) ++ last) e.same_blocks) in
      rw (items, e.bytes, concat-append front (d.items b.blocks)) (simp append_assoc)

  blocks_read :
      (spare : ℕ → Bytes) (tail : Bytes) (o : Blob) (front : List Bytes) (b c : Builder d)
      (blk filter index : Bytes) (bloom : Option Filter) (rows : List Entry)
      (k : Kept d l front b rows) (e : Ended d l front b c blk rows)
      → b.conf.block_size < 2 ^ 16
      → All IsEntry rows
      → let t = table_of d l fb c blk bloom filter index in
        Has o (concat front ++ encode_table d t)
        → length (concat front ++ encode_table d t) < 2 ^ 32
        → Each (BlockReads l spare tail t.info c.block_metas o) 0 e.parts
  unfolding info_of
  blocks_read spare tail o front b c blk filter index bloom rows k e size entries has small =
      let t = table_of d l fb c blk bloom filter index in
      let rest = behind c blk filter index in
      let same = table_bytes front b c blk filter index bloom rows e in
      let there : Has o (concat e.blocks ++ rest) = subst (λ x. Has o x) same has in
      let short : length (concat e.blocks ++ rest) < 2 ^ 32 =
        subst (λ x. length x < 2 ^ 32) same small in
      let sum = length-append (concat e.blocks) rest in
      let laid = ap length e.bytes ∙ length-append (concat (front ++ d.items b.blocks)) blk in
      let offset : t.info.filter_offset ≡ length (concat e.blocks) =
        omega (arith, e.current_len, k.len, laid, sum, short) in
      let codec : t.info.compression_codec ≡ b.conf.compression = ap (λ x. x.compression) e.conf in
      each (BlockReads l spare tail t.info c.block_metas o) 0 e.parts λ i es listed.
        let f = found l b.conf 0 c.block_metas e.blocks e.parts i es e.stored listed in
        let fit = All-part e.parts i es (subst (λ x. All IsEntry x) (sym e.order) entries) listed in
        let (filled, blk, dec, all) =
          decoded l lossless long b.conf (spare i) f.buf es size fit f.block in
        let one : read_blocks l spare tail t.info c.block_metas (record { start = i; end = i + 1 })
              o
            ≡ ok (blk ∷ []) =
          read_blocks-one l b.conf spare tail t.info c.block_metas e.blocks rest o i es f blk there
            (omega (arith, short)) offset (rw codec dec) in
        subst (λ n. BlockReads l spare tail t.info c.block_metas o n es) (omega arith)
          (filled, blk, one, all)

  -- Rows are added in order to a new builder, and the table is built, with a block size below 2 ^ 16, keys and
  -- values within the widths of the format, lossless compressors that do not make two bytes fewer, and fewer
  -- than 2 ^ 16 probes in the filter. An object of its bytes, shorter than 2 ^ 32, whose index is
  -- more than a checksum, has the metadata and an index; the index has as many blocks as the rows
  -- are parted into, in their order, and each block that is read iterates over its rows.
  pub build-rows :
      (spare : ℕ → Bytes) (tail : Bytes) (o : Blob) (conf : Config) (rows : List (Bytes × Value))
      (b : Builder d) (t : SsTable d)
      → add_rows d l (new_builder d conf) rows ≡ ok b
      → build d l fb probes b ≡ ok t
      → b.conf.block_size < 2 ^ 16
      → All IsEntry (map plain_entry rows)
      → Has o (encode_table d t)
      → length (encode_table d t) < 2 ^ 32
      → 4 < t.info.index_len
      → (x : Index) × (parts : List (List Entry)) × (read_info fb o ≡ ok t.info)
        × (read_index l t.info o ≡ ok x)
        × (length parts ≡ length (block_meta fb x))
        × (all_rows parts ≡ map plain_entry rows)
        × Each (BlockReads l spare tail t.info (block_meta fb x) o) 0 parts
  unfolding concat
  build-rows spare tail o conf rows b t added built size entries has small filled =
      let k =
        add_rows-Kept d l q [] (new_builder d conf) b [] rows (new_builder-Kept d l q conf) added in
      let (blk, c, bloom, filter, index, finished, filtered, coded, same) =
        build-parts d l fb probes b t built in
      let e = ended d l [] b c blk (map plain_entry rows) k finished in
      let (blk1, c1, finished1, info_read, _, (x, index_read, metas)) =
        build-read d l fb back lossless q probes fits o [] b t
          (IsLaid-Kept d l [] b (map plain_entry rows) k) built has small filled in
      let gives : ◌≡◌ {A = Bytes × Builder d} (blk1, c1) (blk, c) =
        ok_injective (sym finished1 ∙ finished) in
      let metas1 : c.block_metas ≡ block_meta fb x =
        ap (λ p. p.1.block_metas) (sym gives) ∙ sym metas in
      let all =
        blocks_read spare tail o [] b c blk filter index bloom (map plain_entry rows) k e size
          entries (subst (λ (y : SsTable d). Has o (encode_table d y)) (sym same) has)
          (subst (λ (y : SsTable d). length (encode_table d y) < 2 ^ 32) (sym same) small) in
      let info : (table_of d l fb c blk bloom filter index).info ≡ t.info = ap (λ y. y.info) same in
      (
        x,
        e.parts,
        info_read,
        index_read,
        length-Stored l b.conf 0 c.block_metas e.blocks e.parts e.stored ∙ ap length metas1,
        e.order,
        subst₂ (λ i m. Each (BlockReads l spare tail i m o) 0 e.parts) info metas1 all,
      )
