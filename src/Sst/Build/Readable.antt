-- ===== src/Sst/Build/Readable.antt =====
-- What is read of a table that was built (internal/sstable/builder.go and decode.go).
use mathlib.Core.List.{append_assoc}
use slatedb_go.Prelude.{
  ℕ, ◌^◌, ◌<◌, ◌≤◌, ◌≡◌, refl, sym, ap, subst, arith, true, false, Bool-cases, ◌⊎◌, inl, inr,
  Option, none, some, [], ◌++◌, length, length-append, ltb, leb,
}
use slatedb_go.Prelude.Bytes.{Bytes}
use slatedb_go.Prelude.Result.{Result, ok, err, panic, >>=-eq-ok, widen, widen-eq-ok, ok_injective}
use slatedb_go.Compress.{Library, IsLossless}
use slatedb_go.Bloom
use slatedb_go.Bloom.{Filter}
use slatedb_go.Bloom.Codec.{FilterError}
use slatedb_go.Bloom.Probes.{build_probes}
use slatedb_go.State.{Deques, IsDeque}
use slatedb_go.Sst.Index.{
  FlatBuffers, IsReadBack, Index, block_meta, encode_index, decode_index-encode_index,
}
use slatedb_go.Sst.Read.{Blob, Has, read_info, read_filter, read_index}
use slatedb_go.Sst.Build.{
  PartError, SsTable, Builder, concat, lift_filter, finish_block, encode_table, build_filter,
  info_of, footer, build,
}
use slatedb_go.Sst.Build.Laid.{IsLaid, concat-snoc, finish_block_lem}
use slatedb_go.Sst.Build.Parts.{index_there, filter_there, read_info_lem}

lift_filter-eq-ok :
    {T : Type 0} (m : Result FilterError T) {t : T} → lift_filter m ≡ ok t → m ≡ ok t
unfolding lift_filter
lift_filter-eq-ok (ok t) h = cc
lift_filter-eq-ok (err e) h = cc
lift_filter-eq-ok panic h = cc

module _ (d : Deques) (l : Library) where
  -- The filter is read back, or there is none.
  build_filter_lem :
      (lossless : IsLossless l) (probes : ℕ → ℕ) (b : Builder d) (bloom : Option Filter)
      (out : Bytes)
      → ((n : ℕ) → probes n < 2 ^ 16)
      → build_filter d l probes b ≡ ok (bloom, out)
      → ((bloom ≡ none) × (out ≡ []))
        ⊎ ((f : Filter) × (bloom ≡ some f)
            × (4 ≤ length out)
            × (Bloom.Codec.decode l out b.conf.compression ≡ ok f))
  unfolding build_filter lift_filter
  build_filter_lem lossless probes b bloom out small done =
      elim (Bool-cases (leb b.conf.min_filter_keys b.num_keys)) [
        | inl e ↦
            let inner = rw (e, build_filter) at done in
            let (f, made, more) = >>=-eq-ok (widen (Bloom.build probes b.filter_builder)) _ inner in
            let (enc, coded, last) =
              >>=-eq-ok (lift_filter (Bloom.Codec.encode l f b.conf.compression)) _ more in
            let built : Bloom.build probes b.filter_builder ≡ ok f = widen-eq-ok _ made in
            let written : Bloom.Codec.encode l f b.conf.compression ≡ ok enc =
              lift_filter-eq-ok _ coded in
            let same : enc ≡ out = cc in
            let one : bloom ≡ some f = cc in
            let fits = build_probes probes b.filter_builder f small built in
            let size : 4 ≤ length out =
              rw (← same) (Bloom.Codec.encode-size l f enc b.conf.compression written) in
            let back : Bloom.Codec.decode l out b.conf.compression ≡ ok f =
              rw (← same) (
                Bloom.Codec.decode-encode_filter l lossless f enc b.conf.compression fits
                  written) in
            inr (f, one, size, back)
        | inr e ↦
            let step : build_filter d l probes b ≡ ok (none, []) = rw (e, build_filter) refl in
            let a : bloom ≡ none = cc in let c : out ≡ [] = cc in inl (a, c)
      ]

  -- The table that Build returns, of its last block, its filter and its index.
  abbrev pub table_of : FlatBuffers → Builder d → Bytes → Option Filter → Bytes → Bytes → SsTable d
  table_of fb c blk bloom filter index = record {
    info = info_of d c blk filter index;
    bloom = bloom;
    blocks = d.push_back c.blocks (
        ((blk ++ filter) ++ index)
        ++ footer d fb c ((blk ++ filter) ++ index) (info_of d c blk filter index));
  }

  pub build-parts :
      (fb : FlatBuffers) (probes : ℕ → ℕ) (b : Builder d) (t : SsTable d)
      → build d l fb probes b ≡ ok t
      → (blk : Bytes) × (c : Builder d) × (bloom : Option Filter) × (filter : Bytes)
        × (index : Bytes) × (finish_block d l b ≡ ok (blk, c))
        × (build_filter d l probes c ≡ ok (bloom, filter))
        × (encode_index l {P = PartError} fb c.block_metas c.conf.compression ≡ ok index)
        × (table_of fb c blk bloom filter index ≡ t)
  unfolding build
  build-parts fb probes b t built =
      let ((blk, c), finished, more1) = >>=-eq-ok (finish_block d l b) _ built in
      let ((bloom, filter), filtered, more2) = >>=-eq-ok (build_filter d l probes c) _ more1 in
      let (index, coded, last) =
        >>=-eq-ok (encode_index l {P = PartError} fb c.block_metas c.conf.compression) _ more2 in
      (blk, c, bloom, filter, index, finished, filtered, coded, ok_injective last)

  -- What is read of the object of a table.
  abbrev IsRead : FlatBuffers → Blob → Builder d → SsTable d → Type 0
  IsRead fb o c t =
      (read_info fb o ≡ ok t.info)
      × (read_filter l t.info o ≡ ok t.bloom)
      × ((x : Index) × (read_index l t.info o ≡ ok x) × (block_meta fb x ≡ c.block_metas))

  module _ (fb : FlatBuffers) (back : IsReadBack fb) (lossless : IsLossless l) (q : IsDeque d)
      (probes : ℕ → ℕ) (fits : (n : ℕ) → probes n < 2 ^ 16) (o : Blob) where
    filter_read :
        (p blk filter index : Bytes) (c : Builder d) (bloom : Option Filter)
        → Has o (
            p
            ++ (((blk ++ filter) ++ index)
                ++ footer d fb c ((blk ++ filter) ++ index) (info_of d c blk filter index)))
        → length (
            p
            ++ (((blk ++ filter) ++ index)
                ++ footer d fb c ((blk ++ filter) ++ index) (info_of d c blk filter index)))
          < 2 ^ 32
        → c.current_len ≡ length p
        → build_filter d l probes c ≡ ok (bloom, filter)
        → read_filter l (info_of d c blk filter index) o ≡ ok bloom
    unfolding read_filter info_of lift_filter
    filter_read p blk filter index c bloom has small count filtered =
        elim (build_filter_lem lossless probes c bloom filter fits filtered) [
          | inl (none_built, e) ↦
              let zero : ltb (length filter) 1 ≡ true = rw e refl in
              rw (zero, read_filter) (ap (λ k. ok k) (sym none_built))
          | inr (f, one, size, decoded) ↦
              let some_bytes : ltb (length filter) 1 ≡ false = ground (arith, size) in
              let there = filter_there d fb back o p blk filter index c has small count in
              rw (some_bytes, read_filter) (rw there (rw decoded (ap (λ k. ok k) (sym one))))
        ]

    table-IsRead :
        (w blk filter index : Bytes) (c : Builder d) (bloom : Option Filter)
        → IsLaid d w c
        → build_filter d l probes c ≡ ok (bloom, filter)
        → encode_index l {P = PartError} fb c.block_metas c.conf.compression ≡ ok index
        → let t = table_of fb c blk bloom filter index in
          Has o (w ++ encode_table d t)
          → length (w ++ encode_table d t) < 2 ^ 32
          → 4 < length index
          → IsRead fb o c t
    unfolding encode_table read_index info_of
    table-IsRead w blk filter index c bloom laid filtered coded has small long =
        let x =
          ((blk ++ filter) ++ index)
          ++ footer d fb c ((blk ++ filter) ++ index) (info_of d c blk filter index) in
        let p = w ++ concat (d.items c.blocks) in
        let items : w ++ concat (d.items (d.push_back c.blocks x)) ≡ p ++ x =
          rw (q.items-push_back x c.blocks, concat-snoc (d.items c.blocks) x)
            (sym (append_assoc w (concat (d.items c.blocks)) x)) in
        let has2 : Has o (p ++ x) = subst (λ k. Has o k) items has in
        let small2 : length (p ++ x) < 2 ^ 32 = subst (λ k. length k < 2 ^ 32) items small in
        let count : c.current_len ≡ length p = omega (arith, laid.len, length-append p x, small2) in
        let (known, (y, decoded, metas)) =
          decode_index-encode_index l lossless fb back c.block_metas c.conf.compression index
            laid.metas coded long in
        let there = index_there d fb back o p blk filter index c has2 small2 count in
        let gives : read_index l (info_of d c blk filter index) o ≡ ok y =
          rw (there, read_index) decoded in
        (
          read_info_lem d fb back o p blk filter index c has2 small2 count known,
          filter_read p blk filter index c bloom has2 small2 count filtered,
          (y, gives, metas),
        )

    -- A table is built behind blocks that are laid, and no filter has 2 ^ 16 probes or more. An object
    -- of the bytes before it and of its blocks, shorter than 2 ^ 32 bytes, whose index is more
    -- than a checksum, is read back with lossless compressors: its metadata, its filter, and an
    -- index that has the first key and the offset of each finished block.
    pub build-read :
        (w : Bytes) (b : Builder d) (t : SsTable d)
        → IsLaid d w b
        → build d l fb probes b ≡ ok t
        → Has o (w ++ encode_table d t)
        → length (w ++ encode_table d t) < 2 ^ 32
        → 4 < t.info.index_len
        → (blk : Bytes) × (c : Builder d) × (finish_block d l b ≡ ok (blk, c))
          × (read_info fb o ≡ ok t.info)
          × (read_filter l t.info o ≡ ok t.bloom)
          × ((x : Index) × (read_index l t.info o ≡ ok x) × (block_meta fb x ≡ c.block_metas))
    unfolding info_of
    build-read w b t laid built has small long =
        let (blk, c, bloom, filter, index, finished, filtered, coded, same) =
          build-parts fb probes b t built in
        let r = finish_block_lem d l w b c blk laid finished in
        let read : IsRead fb o c t =
          subst (λ k. IsRead fb o c k) same
            (table-IsRead w blk filter index c bloom r.laid filtered coded
              (subst (λ k. Has o (w ++ encode_table d k)) (sym same) has)
              (subst (λ k. length (w ++ encode_table d k) < 2 ^ 32) (sym same) small)
              (subst (λ (k : SsTable d). 4 < k.info.index_len) (sym same) long)) in
        (blk, c, finished, read.0, read.1, read.2)
