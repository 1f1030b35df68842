-- ===== src/Sst/Blocks/One.antt =====
-- One block of a table is read, as the iterator over a table does (internal/sstable/decode.go).
use mathlib.Core.List.{append_assoc}
use slatedb_go.Prelude.{
  ℕ, suc, ◌+◌, ◌-◌, ◌^◌, ◌<◌, ◌≡◌, refl, ap, ◌∙◌, arith, true, false, inl, inr, some, List, [], ◌∷◌,
  ◌++◌, length, get_elem?, length-append, take-append, ltb, leb, ◌==◌,
}
use slatedb_go.Prelude.Bytes.{Bytes}
use slatedb_go.Prelude.Result.{ok}
use slatedb_go.Compress.{Library}
use slatedb_go.Block
use slatedb_go.Block.{Block}
use slatedb_go.Block.Layout.{Entry}
use slatedb_go.Sst.{Info}
use slatedb_go.Sst.FirstBlock.{BlockMeta}
use slatedb_go.Sst.Build.{Config, concat, lift_block}
use slatedb_go.Sst.Blocks.Found.{Found}
use slatedb_go.Sst.Build.Parts.{range-part}
use slatedb_go.Sst.Read.{Blob, Has}
use slatedb_go.Sst.Blocks.{
  offset_at, get_block_range, sub64, slice, block_bytes, read_loop, read_blocks,
}

slice-whole :
    (bytes tail : Bytes) (from to : ℕ)
    → from ≡ 0
    → to ≡ length bytes
    → slice bytes tail from to ≡ ok bytes
unfolding slice
slice-whole bytes tail from to at end =
    let turned : ltb to from ≡ false = ground arith in
    let inside : ltb (length (bytes ++ tail)) to ≡ false =
      ground (arith, length-append bytes tail) in
    rw (turned, inside, at) (ap (λ b. ok b) (take-append (to - 0) bytes tail (omega arith)))

offset_at-some :
    (ms : List BlockMeta) (k n : ℕ) (m : BlockMeta)
    → get_elem? ms k ≡ some m
    → m.offset ≡ n
    → offset_at ms k ≡ ok n
unfolding offset_at
offset_at-some ms k n m listed at = rw (listed, offset_at) (ap (λ t. ok t) at)

next_index : (k : ℕ) → k + 1 ≡ suc k
next_index k = omega arith

module _ (l : Library) (conf : Config) where
  module _ (spare : ℕ → Bytes) (tail : Bytes) (info : Info) (ms : List BlockMeta) (bs : List Bytes)
      (rest : Bytes) (o : Blob) (k : ℕ) (es : List Entry) (f : Found l conf 0 ms bs k es) where
    block_range :
        length (concat bs ++ rest) < 2 ^ 64
        → info.filter_offset ≡ length (concat bs)
        → get_block_range (record { start = k; end = k + 1 }) info ms
          ≡ ok (record { start = length f.before; end = length f.before + length f.buf })
    unfolding get_block_range
    block_range small end =
        let size = length-append (concat bs) rest in
        let size2 : length (concat bs) ≡ length f.before + (length f.buf + length f.behind) =
          ap length f.bytes
          ∙ omega
              (arith, length-append f.before (f.buf ++ f.behind), length-append f.buf f.behind) in
        let start : f.meta.offset ≡ length f.before = omega (arith, f.at, size, size2, small) in
        elim f.next [
          | inl (last, none_left) ↦
              let behind : ltb (k + 1) (length ms) ≡ false = ground (arith, last) in
              let stop : info.filter_offset ≡ length f.before + length f.buf =
                omega (arith, end, size2, ap length none_left) in
              rw (offset_at-some ms k _ f.meta f.listed start, get_block_range, behind, stop) refl
          | inr (m, within, listed, at) ↦
              let ahead : ltb (k + 1) (length ms) ≡ true = ground (arith, within) in
              let stop : m.offset ≡ length f.before + length f.buf =
                omega (arith, at, size, size2, small) in
              let there : get_elem? ms (k + 1) ≡ some m = rw (next_index k) listed in
              rw
                (
                  offset_at-some ms k _ f.meta f.listed start,
                  get_block_range,
                  ahead,
                  offset_at-some ms (k + 1) _ m there stop,
                )
                refl
        ]

    bytes_of_block :
        length (concat bs ++ rest) < 2 ^ 64
        → block_bytes f.buf tail ms (length f.before) k ≡ ok f.buf
    unfolding block_bytes
    bytes_of_block small =
        let size = length-append (concat bs) rest in
        let size2 : length (concat bs) ≡ length f.before + (length f.buf + length f.behind) =
          ap length f.bytes
          ∙ omega
              (arith, length-append f.before (f.buf ++ f.behind), length-append f.buf f.behind) in
        let start : f.meta.offset ≡ length f.before = omega (arith, f.at, size, size2, small) in
        let zero_at : sub64 (length f.before) (length f.before) ≡ 0 =
          omega (arith, start, size, size2, small) in
        elim f.next [
          | inl (last, none_left) ↦
              let is_last : (k == length ms - 1) ≡ true = ground (arith, last) in
              rw (offset_at-some ms k _ f.meta f.listed start, block_bytes, is_last)
                (slice-whole f.buf [] _ (length f.buf) zero_at refl)
          | inr (m, within, listed, at) ↦
              let not_last : (k == length ms - 1) ≡ false = ground (arith, within) in
              let there : get_elem? ms (k + 1) ≡ some m = rw (next_index k) listed in
              let stop : m.offset ≡ length f.before + length f.buf =
                omega (arith, at, size, size2, small) in
              let ends : sub64 (length f.before + length f.buf) (length f.before) ≡ length f.buf =
                omega (arith, size, size2, small) in
              rw
                (
                  offset_at-some ms k _ f.meta f.listed start,
                  block_bytes,
                  not_last,
                  offset_at-some ms (k + 1) _ m there stop,
                )
                (slice-whole f.buf tail _ _ zero_at ends)
        ]

    pub read_blocks-one :
        (back : Block)
        → Has o (concat bs ++ rest)
        → length (concat bs ++ rest) < 2 ^ 64
        → info.filter_offset ≡ length (concat bs)
        → Block.decode l (spare k) f.buf info.compression_codec ≡ ok back
        → read_blocks l spare tail info ms (record { start = k; end = k + 1 }) o ≡ ok (back ∷ [])
    unfolding read_blocks read_loop lift_block
    read_blocks-one back has small end decoded =
        let whole : concat bs ++ rest ≡ f.before ++ (f.buf ++ (f.behind ++ rest)) =
          rw f.bytes (simp append_assoc) in
        let there =
          range-part o (concat bs ++ rest) f.before f.buf (f.behind ++ rest) (length f.before)
            (length f.before + length f.buf) has whole refl refl in
        let forward : leb (k + 1) k ≡ false = ground arith in
        let inside : ltb (length ms) (k + 1) ≡ false = ground (arith, f.inside) in
        let one : k + 1 - k ≡ 1 = omega arith in
        rw (forward, inside, block_range small end, there, one, bytes_of_block small, decoded) refl
