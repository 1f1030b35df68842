-- ===== src/Crc.antt =====
-- hash/crc32: ChecksumIEEE, bit by bit, with the reflected polynomial.
use Prim.Native.Nat.{bit_and, bit_xor}
use mathlib.Core.List.{foldl}
use slatedb_go.Prelude.{
  ◌+◌, ◌++◌, length, take, drop, length-append, take-append, drop-append, ℕ, zero, suc, ◌-◌, ◌/◌,
  ◌^◌, ◌<◌, ◌≡◌, refl, arith, [], ◌∷◌, ◌==◌, if◌then◌else◌,
}
use slatedb_go.Prelude.Bytes.{Bytes}
use slatedb_go.Prelude.Result.{ok}
use slatedb_go.BigEndian.{be_bytes, read_be, length-be_bytes, read_be-be_bytes_end}

shift_bits : ℕ → ℕ → ℕ
shift_bits zero crc = crc
shift_bits (suc n) crc =
    shift_bits n (if bit_and crc 1 == 0 then crc / 2 else bit_xor (crc / 2) 0xedb88320)

update : ℕ → ℕ → ℕ
update crc b = shift_bits 8 (bit_xor crc b)

-- The complement of a uint32 is its distance from 2 ^ 32 - 1.
unfoldable pub checksum_ieee : Bytes → ℕ
unfolding update shift_bits
checksum_ieee bs = 0xffff_ffff - foldl update 0xffff_ffff bs

pub checksum_ieee-lt : (bs : Bytes) → checksum_ieee bs < 2 ^ 32
unfolding checksum_ieee
checksum_ieee-lt bs = omega arith

-- A buffer with its checksum behind it is taken apart again.
pub framed_lem :
    {E : Type 0} (c : Bytes)
    → let buf = c ++ be_bytes 4 (checksum_ieee c) in
      (length buf ≡ length c + 4)
      × (take (length buf - 4) buf ≡ c)
      × (read_be {E = E} 4 (drop (length buf - 4) buf) ≡ ok (checksum_ieee c, []))
framed_lem c =
    let sum = be_bytes 4 (checksum_ieee c) in
    let size : length (c ++ sum) ≡ length c + 4 =
      omega (arith, length-append c sum, length-be_bytes 4 (checksum_ieee c)) in
    let start : length c ≡ length (c ++ sum) - 4 = omega (arith, size) in
    (
      size,
      take-append (length (c ++ sum) - 4) c sum start,
      rw (drop-append (length (c ++ sum) - 4) c sum start)
          (read_be-be_bytes_end 4 (checksum_ieee c) (checksum_ieee-lt c)),
    )

-- The check value of the algorithm, on the digits 1 to 9.
check_value :
    checksum_ieee (0x31 ∷ 0x32 ∷ 0x33 ∷ 0x34 ∷ 0x35 ∷ 0x36 ∷ 0x37 ∷ 0x38 ∷ 0x39 ∷ []) ≡ 0xcbf43926
unfolding checksum_ieee
check_value = refl
