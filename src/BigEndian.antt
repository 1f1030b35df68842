-- ===== src/BigEndian.antt =====
-- encoding/binary: big-endian integers of 2, 4 and 8 bytes, as the codecs write and read them.
use native.Mathlib.Nat.{div-add-mod, pow-suc}
use mathlib.Core.List.{foldl, foldl-append, append-nil}
use slatedb_go.Prelude.{
  ℕ, zero, suc, ◌+◌, ◌*◌, ◌/◌, ◌%◌, ◌^◌, ◌<◌, ◌≡◌, refl, arith, [], ◌∷◌, ◌++◌, length, take, drop,
  ltb, if◌then◌else◌, length-append, take-append, drop-append,
}
use slatedb_go.Prelude.Bytes.{Bytes}
use slatedb_go.Prelude.Result.{Result, ok, panic}

-- The last `k` bytes of `n`, highest first.
unfoldable pub be_bytes : ℕ → ℕ → Bytes
be_bytes zero n = []
be_bytes (suc k) n = be_bytes k (n / 256) ++ (n % 256) ∷ []

unfoldable pub be_value : Bytes → ℕ
be_value = foldl (λ acc b. acc * 256 + b) 0

-- A read of `k` bytes, with the slice behind them; a short slice panics.
unfoldable pub read_be : {E : Type 0} → ℕ → Bytes → Result E (ℕ × Bytes)
read_be k bs = if ltb (length bs) k then panic else ok (be_value (take k bs), drop k bs)

pub length-be_bytes : (k n : ℕ) → length (be_bytes k n) ≡ k
unfolding be_bytes
length-be_bytes zero n = refl
length-be_bytes (suc k) n =
    omega
      (arith, length-append (be_bytes k (n / 256)) ((n % 256) ∷ []), length-be_bytes k (n / 256))

-- One byte less is left of a number that fits one byte more.
div-lt-pow : (k n : ℕ) → n < 256 ^ suc k → n / 256 < 256 ^ k
div-lt-pow k n h = omega (arith, pow-suc 256 k)

pub be_value-be_bytes : (k n : ℕ) → n < 256 ^ k → be_value (be_bytes k n) ≡ n
unfolding be_bytes be_value
be_value-be_bytes zero n h = omega arith
be_value-be_bytes (suc k) n h =
    rw foldl-append
      (omega (arith, be_value-be_bytes k (n / 256) (div-lt-pow k n h), div-add-mod n 256))

-- A number that fits is read back, with whatever follows it.
pub read_be-be_bytes :
    {E : Type 0} (k n : ℕ) (rest : Bytes)
    → n < 256 ^ k
    → read_be {E = E} k (be_bytes k n ++ rest) ≡ ok (n, rest)
unfolding read_be
read_be-be_bytes k n rest h = rw (take-append k (be_bytes k n) rest (length-be_bytes k n)) (
    rw (drop-append k (be_bytes k n) rest (length-be_bytes k n)) (
      rw (be_value-be_bytes k n h)
        (ground (arith, length-append (be_bytes k n) rest, length-be_bytes k n))))

pub read_be-be_bytes_end :
    {E : Type 0} (k n : ℕ) → n < 256 ^ k → read_be {E = E} k (be_bytes k n) ≡ ok (n, [])
read_be-be_bytes_end {E} k n h = rw append-nil at (read_be-be_bytes {E = E} k n [] h)
