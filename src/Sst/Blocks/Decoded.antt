-- ===== src/Sst/Blocks/Decoded.antt =====
-- The rows of a block of a table are decoded from its bytes (internal/sstable/builder.go).
use slatedb_go.Prelude.{
  ℕ, zero, suc, ◌+◌, ◌^◌, ◌<◌, ◌≤◌, ◌≡◌, refl, subst, arith, tt, true, some, List, [], ◌∷◌, ◌++◌,
  All, map, length, length-append, get_elem?,
}
use slatedb_go.Prelude.Bytes.{Bytes}
use slatedb_go.Prelude.Result.{Result, ok, err, panic, ◌>>=◌}
use slatedb_go.BigEndian.{be_bytes, length-be_bytes}
use slatedb_go.Compress
use slatedb_go.Compress.{Codec, Library, IsLossless, CompressError}
use slatedb_go.Crc.{checksum_ieee}
use slatedb_go.Sst.FirstBlock.{BlockMeta}
use slatedb_go.Block
use slatedb_go.Block.{Block, plain_row}
use slatedb_go.Block.Layout.{Entry}
use slatedb_go.Block.Stored.{add_all, collect-decode-encode}
use slatedb_go.Block.Iterator.{new_iterator, collect}
use slatedb_go.Block.Iterator.Drain.{IsEntry, row_entry}
use slatedb_go.Sst.Build.{Config}
use slatedb_go.Sst.Build.Ended.{some_rows}
use slatedb_go.Sst.Build.Stored.{IsBlockOf, Stored, all_rows}

-- Two bytes or more are not made fewer than two.
abbrev pub IsLong : Library → Type 0
IsLong l =
    (codec : Codec) (b c : Bytes) → 2 ≤ length b → Compress.encode l b codec ≡ ok c → 2 ≤ length c

framed :
    (m : Result CompressError Bytes) (f : Bytes → Bytes) (out : Bytes)
    → (Block.lift_compress m >>= λ c. ok (f c)) ≡ ok out
    → (c : Bytes) × (m ≡ ok c) × (f c ≡ out)
unfolding Block.lift_compress
framed (ok c) f out h = (c, refl, cc)
framed (err e) f out h = cc
framed panic f out h = cc

encode-size :
    (l : Library) (b : Block) (codec : Codec) (out : Bytes)
    → IsLong l
    → Block.encode l b codec ≡ ok out
    → 6 ≤ length out
unfolding Block.encode Block.plain
encode-size l b codec out long coded =
    let (c, e, same) = framed (Compress.encode l (Block.plain b) codec) _ out coded in
    let front = Block.encode_offsets b.offsets in
    let count = be_bytes 2 (length b.offsets) in
    let sum = be_bytes 4 (checksum_ieee c) in
    let plain_size : 2 ≤ length (Block.plain b) = omega (
      arith,
      length-append b.rows (front ++ count),
      length-append front count,
      length-be_bytes 2 (length b.offsets),
    ) in
    let some_bytes = long codec (Block.plain b) c plain_size e in
    let size : length (c ++ sum) ≡ length c + 4 =
      omega (arith, length-append c sum, length-be_bytes 4 (checksum_ieee c)) in
    rw (← same) (omega (arith, size, some_bytes))

All-append : (P : Entry → Type 0) (xs ys : List Entry) → All P (xs ++ ys) → All P xs × All P ys
All-append P [] ys a = (tt, a)
All-append P (x ∷ xs) ys (p, a) = let (l, r) = All-append P xs ys a in ((p, l), r)

pub All-part :
    (ess : List (List Entry)) (k : ℕ) (es : List Entry)
    → All IsEntry (all_rows ess)
    → get_elem? ess k ≡ some es
    → All IsEntry es
unfolding all_rows
All-part [] k es a e = cc
All-part (x ∷ ess) zero es a e =
    let same : x ≡ es = cc in
    subst (λ t. All IsEntry t) same (All-append IsEntry x (all_rows ess) a).0
All-part (x ∷ ess) (suc k) es a e = All-part ess k es (All-append IsEntry x (all_rows ess) a).1 e

pub length-Stored :
    (l : Library) (conf : Config) (n : ℕ) (ms : List BlockMeta) (bs : List Bytes)
    (ess : List (List Entry))
    → Stored l conf n ms bs ess
    → length ess ≡ length ms
length-Stored l conf n [] [] [] s = refl
length-Stored l conf n [] [] (x ∷ ess) s = absurd s
length-Stored l conf n [] (b ∷ bs) ess s = absurd s
length-Stored l conf n (m ∷ ms) [] ess s = absurd s
length-Stored l conf n (m ∷ ms) (b ∷ bs) [] s = absurd s
length-Stored l conf n (m ∷ ms) (b ∷ bs) (x ∷ ess) s =
    omega (arith, length-Stored l conf (n + length b) ms bs ess s.2)

module _ (l : Library) (lossless : IsLossless l) (long : IsLong l) (conf : Config) where
  -- The rows of a block are decoded from its bytes.
  pub decoded :
      (spare buf : Bytes) (es : List Entry)
      → conf.block_size < 2 ^ 16
      → All IsEntry es
      → IsBlockOf l conf buf es
      → (0 < length es)
        × (back : Block) × (Block.decode l spare buf conf.compression ≡ ok back)
        × (collect (suc (length es)) (new_iterator back) ≡ ok (map row_entry es))
  decoded spare buf es small fit b =
      let (e, rest, same) = some_rows conf.block_size es b.builder b.rows b.some_row in
      let here =
        collect-decode-encode l lossless conf.compression spare buf conf.block_size e rest b.builder
          b.blk small (subst (λ t. All IsEntry t) same fit)
          (subst (λ t. add_all (Block.new_builder conf.block_size) t ≡ ok (b.builder, true)) same
            b.rows)
          b.built b.encoded (encode-size l b.blk conf.compression buf long b.encoded) in
      rw same (omega arith, here.0, here.1, here.2)
