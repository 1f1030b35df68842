-- ===== src/Sst/Build/Parts.antt =====
-- Where the parts of a table stand in its object (internal/sstable/builder.go and decode.go).
use mathlib.Core.List.{append_assoc, append-nil}
use slatedb_go.Prelude.{
  ℕ, ◌+◌, ◌-◌, ◌%◌, ◌^◌, ◌<◌, ◌≡◌, ap, ◌∙◌, arith, false, [], ◌++◌, length, take, drop,
  length-append, take-append, drop-append, leb,
}
use slatedb_go.Prelude.Bytes.{Bytes}
use slatedb_go.Prelude.Result.{ok}
use slatedb_go.BigEndian.{be_bytes, read_be, length-be_bytes, read_be-be_bytes_end}
use slatedb_go.State.{Deques}
use slatedb_go.Sst.{Info}
use slatedb_go.Sst.Index.{
  encode_info-size, FlatBuffers, IsReadBack, IsInfo, IsKnown, encode_info, decode_info-encode_info,
}
use slatedb_go.Sst.Read.{ReadError, Blob, Has, read_info}
use slatedb_go.Sst.Build.{Builder, info_of, footer}

-- A part of an object is read by its place.
pub range-part :
    (o : Blob) (bytes pre x post : Bytes) (start end : ℕ)
    → Has o bytes
    → bytes ≡ pre ++ (x ++ post)
    → length pre ≡ start
    → length pre + length x ≡ end
    → o.read_range start end ≡ ok x
range-part o bytes pre x post start end has e at to =
    let size : length bytes ≡ length pre + (length x + length post) =
      ap length e ∙ omega (arith, length-append pre (x ++ post), length-append x post) in
    let within : o.read_range start end ≡ ok (take (end - start) (drop start bytes)) =
      has.range_is start end (omega (arith, at, to)) (omega (arith, size, to)) in
    let long : length x ≡ end - start = omega (arith, at, to) in
    let found : take (end - start) (drop start bytes) ≡ x =
      rw (e, drop-append start pre (x ++ post) at) (take-append (end - start) x post long) in
    within ∙ ap (λ y. ok y) found

module _ (d : Deques) where
  -- The bytes of a table, with what stands before its last block.
  module _ (fb : FlatBuffers) (back : IsReadBack fb) (o : Blob) (p blk filter index : Bytes)
      (b : Builder d) where
    abbrev info : Info
    info = info_of d b blk filter index

    abbrev front : Bytes
    front = (blk ++ filter) ++ index

    abbrev whole : Bytes
    whole = p ++ (front ++ footer d fb b front info)

    module _ (has : Has o whole) (small : length whole < 2 ^ 32)
        (laid : b.current_len ≡ length p) where
      abbrev meta : Bytes
      meta = encode_info fb info

      abbrev tail : Bytes
      tail = be_bytes 4 ((b.current_len + length front) % 2 ^ 64 % 2 ^ 32)

      sizes :
          (length p + (length blk + length filter + length index + (length meta + 4))
            ≡ length whole)
          × (length front ≡ length blk + length filter + length index)
          × (length (blk ++ filter) ≡ length blk + length filter)
      unfolding footer
      sizes = omega (
        arith,
        length-append p (front ++ (meta ++ tail)),
        length-append front (meta ++ tail),
        length-append (blk ++ filter) index,
        length-append blk filter,
        length-append meta tail,
        length-be_bytes 4 ((b.current_len + length front) % 2 ^ 64 % 2 ^ 32),
      )

      pub index_there :
          o.read_range info.index_offset ((info.index_offset + info.index_len) % 2 ^ 64) ≡ ok index
      unfolding footer info_of
      index_there =
          let parts : whole ≡ (p ++ (blk ++ filter)) ++ (index ++ (meta ++ tail)) =
            simp append_assoc in
          let before = length-append p (blk ++ filter) in
          range-part o whole (p ++ (blk ++ filter)) index (meta ++ tail) info.index_offset _ has
            parts (omega (arith, sizes, before, small, laid))
            (omega (arith, sizes, before, small, laid))

      pub filter_there :
          o.read_range info.filter_offset ((info.filter_offset + info.filter_len) % 2 ^ 64)
          ≡ ok filter
      unfolding footer info_of
      filter_there =
          let parts : whole ≡ (p ++ blk) ++ (filter ++ (index ++ (meta ++ tail))) =
            simp append_assoc in
          let before = length-append p blk in
          range-part o whole (p ++ blk) filter (index ++ (meta ++ tail)) info.filter_offset _ has
            parts (omega (arith, sizes, before, small, laid))
            (omega (arith, sizes, before, small, laid))

      pub read_info_lem : IsKnown b.conf.compression → read_info fb o ≡ ok info
      unfolding read_info footer info_of
      read_info_lem known =
          let (all, part, half) = sizes in
          let at = length whole - 4 in
          let offset = b.current_len + length front in
          let low : offset % 2 ^ 64 % 2 ^ 32 ≡ offset = omega (arith, all, part, small, laid) in
          let parts : whole ≡ (p ++ (front ++ meta)) ++ (tail ++ []) =
            simp (append_assoc, append-nil) in
          let middle : whole ≡ (p ++ front) ++ (meta ++ tail) = simp append_assoc in
          let b1 = length-append p (front ++ meta) in
          let b2 = length-append front meta in
          let b3 = length-append p front in
          let four = length-be_bytes 4 (offset % 2 ^ 64 % 2 ^ 32) in
          let last : o.read_range at (length whole) ≡ ok tail =
            range-part o whole (p ++ (front ++ meta)) tail [] at (length whole) has parts
              (omega (arith, all, part, b1, b2)) (omega (arith, all, part, b1, b2, four)) in
          let there : o.read_range (offset % 2 ^ 64 % 2 ^ 32) at ≡ ok meta =
            range-part o whole (p ++ front) meta tail (offset % 2 ^ 64 % 2 ^ 32) at has middle
              (omega (arith, low, b3, laid)) (omega (arith, all, part, b3)) in
          let number : read_be {E = ReadError} 4 tail ≡ ok (offset % 2 ^ 64 % 2 ^ 32, []) =
            read_be-be_bytes_end 4 (offset % 2 ^ 64 % 2 ^ 32) (omega arith) in
          let fits : IsInfo info = record {
            index_offset = omega arith;
            index_len = omega (arith, all, small);
            filter_offset = omega arith;
            filter_len = omega (arith, all, small);
            codec = known;
          } in
          let long : leb (length whole) 4 ≡ false = ground (arith, all, encode_info-size fb info) in
          rw (has.len_is, read_info)
            (rw long (rw last (rw number (rw there (decode_info-encode_info fb back info fits)))))
