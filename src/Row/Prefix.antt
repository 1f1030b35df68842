-- ===== src/Row/Prefix.antt =====
-- computePrefixLen and computePrefixChunks of internal/sstable/block/row.go, against the length of
-- the longest common prefix.
use native.Mathlib.Numerals.{add-one}
use slatedb_go.Prelude.{
  ℕ, zero, suc, ◌+◌, ◌*◌, ◌/◌, ◌-◌, ◌%◌, ◌^◌, ◌≤◌, ◌<◌, ◌≡◌, refl, ap, inl, inr, arith, true, ◌&&◌,
  [], ◌∷◌, ◌++◌, length, take, drop, get_or, min, ltb, ◌==◌, if◌then◌else◌, drop-drop, drop-cons,
  drop-past, length-drop, Bool-cases,
}
use slatedb_go.Row.{Row, v0_full_key}
use slatedb_go.Prelude.Result.{ok}
use slatedb_go.Prelude.Bytes.{Bytes, equal_bytes, equal_bytes_iff}

slice : ℕ → ℕ → Bytes → Bytes
slice start end bs = take (end - start) (drop start bs)

-- The loop over chunks, by the rounds left.
chunk_loop : Bytes → Bytes → ℕ → ℕ → ℕ → ℕ → ℕ
chunk_loop lhs rhs size zero i off = off
chunk_loop lhs rhs size (suc n) i off =
    let start = i * size in
    let end = start + size in
    let rest = chunk_loop lhs rhs size n (i + 1) (off + size) in
    if equal_bytes (slice start end lhs) (slice start end rhs) then rest else off

-- The loop over the bytes that remain; `fuel` bounds its rounds.
byte_loop : Bytes → Bytes → ℕ → ℕ → ℕ → ℕ
byte_loop lhs rhs min_len zero off = off
byte_loop lhs rhs min_len (suc fuel) off =
    let rest = byte_loop lhs rhs min_len fuel (off + 1) in
    if ltb off min_len && get_or lhs off 0 == get_or rhs off 0 then rest else off

-- `math.Min` over float64 is exact for lengths below 2 ^ 53.
pub compute_prefix_chunks : Bytes → Bytes → ℕ → ℕ
compute_prefix_chunks lhs rhs size =
    let min_len = min (length lhs) (length rhs) in
    let off = chunk_loop lhs rhs size (min_len / size) 0 0 in
    byte_loop lhs rhs min_len min_len off % 2 ^ 16

unfoldable pub compute_prefix_len : Bytes → Bytes → ℕ
unfolding compute_prefix_chunks chunk_loop byte_loop slice
compute_prefix_len lhs rhs = compute_prefix_chunks lhs rhs 128

-- The length of the longest common prefix.
pub common : Bytes → Bytes → ℕ
common [] ys = 0
common (x ∷ xs) [] = 0
common (x ∷ xs) (y ∷ ys) = if x == y then suc (common xs ys) else 0

common-take :
    (n : ℕ) (xs ys : Bytes)
    → n ≤ length xs
    → n ≤ length ys
    → take n xs ≡ take n ys
    → common xs ys ≡ n + common (drop n xs) (drop n ys)
unfolding common
common-take zero xs ys hx hy e = omega arith
common-take (suc n) [] ys hx hy e = elim hx [ ]
common-take (suc n) (x ∷ xs) [] hx hy e = elim hy [ ]
common-take (suc n) (x ∷ xs) (y ∷ ys) hx hy e = ground (arith, common-take n xs ys)

common-nil : (xs : Bytes) → common xs [] ≡ 0
unfolding common
common-nil [] = refl
common-nil (x ∷ xs) = refl

-- Past the shorter end nothing is in common.
common-past :
    (lhs rhs : Bytes) (off : ℕ)
    → min (length lhs) (length rhs) ≤ off
    → common (drop off lhs) (drop off rhs) ≡ 0
unfolding common
common-past lhs rhs off h = elim (Bool-cases (ltb off (length lhs))) [
  | inl left ↦
      let past : length rhs ≤ off = ground arith in rw (drop-past off rhs past) (common-nil _)
  | inr right ↦ let past : length lhs ≤ off = ground arith in rw (drop-past off lhs past)
]

common-here :
    (lhs rhs : Bytes) (off : ℕ)
    → off < min (length lhs) (length rhs)
    → common (drop off lhs) (drop off rhs) ≡ (
        if get_or lhs off 0 == get_or rhs off 0
        then suc (common (drop (off + 1) lhs) (drop (off + 1) rhs))
        else 0)
unfolding common
common-here lhs rhs off h =
    rw (add-one, drop-cons off lhs 0 (omega arith), drop-cons off rhs 0 (omega arith))

byte_loop_lem :
    (lhs rhs : Bytes) (fuel off : ℕ)
    → min (length lhs) (length rhs) ≤ off + fuel
    → common lhs rhs ≡ off + common (drop off lhs) (drop off rhs)
    → byte_loop lhs rhs (min (length lhs) (length rhs)) fuel off ≡ common lhs rhs
unfolding byte_loop
byte_loop_lem lhs rhs zero off h inv = omega (arith, common-past lhs rhs off)
byte_loop_lem lhs rhs (suc fuel) off h inv =
    ground (
      arith,
      common-past lhs rhs off,
      common-here lhs rhs off,
      byte_loop_lem lhs rhs fuel (off + 1),
    )

-- A chunk that agrees is part of the common prefix.
chunk-common :
    (lhs rhs : Bytes) (off size : ℕ)
    → off + size ≤ min (length lhs) (length rhs)
    → equal_bytes (slice off (off + size) lhs) (slice off (off + size) rhs) ≡ true
    → common (drop off lhs) (drop off rhs)
      ≡ size + common (drop (off + size) lhs) (drop (off + size) rhs)
unfolding slice
chunk-common lhs rhs off size h same =
    let width : off + size - off ≡ size = omega arith in
    let eq = (equal_bytes_iff _ _).0 same in
    rw (drop-drop size off lhs, drop-drop size off rhs) at
      (common-take size (drop off lhs) (drop off rhs) (omega (arith, length-drop off lhs))
        (omega (arith, length-drop off rhs)) (rw width at eq))

chunk_loop_lem :
    (lhs rhs : Bytes) (size n i off : ℕ)
    → off ≡ i * size
    → (i + n) * size ≤ min (length lhs) (length rhs)
    → common lhs rhs ≡ off + common (drop off lhs) (drop off rhs)
    → let stop = chunk_loop lhs rhs size n i off in
      common lhs rhs ≡ stop + common (drop stop lhs) (drop stop rhs)
unfolding chunk_loop
chunk_loop_lem lhs rhs size zero i off e h inv = inv
chunk_loop_lem lhs rhs size (suc n) i off e h inv =
    rw (← e)
      (elim (Bool-cases (equal_bytes (slice off (off + size) lhs) (slice off (off + size) rhs))) [
        | inl same ↦ rw same (
            chunk_loop_lem lhs rhs size n (i + 1) (off + size) (grind arith) (grind arith)
              (omega (arith, chunk-common lhs rhs off size (grind arith) same)))
        | inr other ↦ rw other inv
      ])

-- The chunked comparison finds the length of the longest common prefix, cut to 16 bits, whatever
-- the size of a chunk.
pub compute_prefix_chunks_lem :
    (lhs rhs : Bytes) (size : ℕ)
    → 0 < size
    → compute_prefix_chunks lhs rhs size ≡ common lhs rhs % 2 ^ 16
unfolding compute_prefix_chunks
compute_prefix_chunks_lem lhs rhs size pos =
    let m = min (length lhs) (length rhs) in
    ap (λ n. n % 2 ^ 16)
      (byte_loop_lem lhs rhs m _ (omega arith)
        (chunk_loop_lem lhs rhs size (m / size) 0 0 (omega arith) (grind arith) (omega arith)))

pub compute_prefix_len_lem :
    (lhs rhs : Bytes) → compute_prefix_len lhs rhs ≡ common lhs rhs % 2 ^ 16
unfolding compute_prefix_len
compute_prefix_len_lem lhs rhs = compute_prefix_chunks_lem lhs rhs 128 (omega arith)

-- The prefix of the first key and the suffix behind it are the key.
pub take-common : (lhs rhs : Bytes) → take (common lhs rhs) lhs ++ drop (common lhs rhs) rhs ≡ rhs
unfolding common
take-common [] ys = refl
take-common (x ∷ xs) [] = refl
take-common (x ∷ xs) (y ∷ ys) = ground (arith, take-common xs ys)

pub common-le : (lhs rhs : Bytes) → (common lhs rhs ≤ length lhs) × (common lhs rhs ≤ length rhs)
unfolding common
common-le [] ys = omega arith
common-le (x ∷ xs) [] = omega arith
common-le (x ∷ xs) (y ∷ ys) = ground (arith, common-le xs ys)

-- Keys within the format have the whole length of the common prefix stored.
pub compute_prefix_len-common :
    (f k : Bytes) → length k < 2 ^ 16 → compute_prefix_len f k ≡ common f k
compute_prefix_len-common f k h = omega (arith, compute_prefix_len_lem f k, common-le f k)

-- A row that was cut against a first key gives its key back with it.
pub v0_full_key-cut :
    {E : Type 0} (f k : Bytes) (r : Row)
    → length f < 2 ^ 16
    → length k < 2 ^ 16
    → r.key_prefix_len ≡ compute_prefix_len f k
    → r.key_suffix ≡ drop (compute_prefix_len f k) k
    → v0_full_key {E = E} r f ≡ ok k
unfolding v0_full_key
v0_full_key-cut f k r hf hk hp hs =
    rw (hp, hs)
      (rw (compute_prefix_len-common f k hk) (ground (arith, common-le f k, take-common f k)))

pub v0_full_key-whole :
    {E : Type 0} (f : Bytes) (r : Row)
    → r.key_prefix_len ≡ 0
    → v0_full_key {E = E} r f ≡ ok r.key_suffix
unfolding v0_full_key
v0_full_key-whole f r h = rw h (ground arith)

pub compute_prefix_len-nil : (k : Bytes) → compute_prefix_len [] k ≡ 0
compute_prefix_len-nil k = omega (arith, compute_prefix_len_lem [] k, common-le [] k)
