-- ===== src/Decimal.antt =====
-- fmt's verb %020d and package strconv on decimal digits, as far as table and manifest names use
-- them. A Go string is its bytes.
use native.Mathlib.Nat.{div-add-mod, pow-suc}
use slatedb_go.Prelude.{
  ℕ, zero, suc, ◌+◌, ◌-◌, ◌*◌, ◌/◌, ◌%◌, ◌^◌, ◌<◌, ◌≡◌, refl, ap, ◌∙◌, arith, ◌&&◌, Option, none,
  some, [], ◌∷◌, ◌++◌, length, ltb, leb, ◌==◌, if◌then◌else◌, length-append,
}
use slatedb_go.Prelude.Bytes.{Bytes}

-- The last `k` digits of `n`, with zeros in front.
unfoldable pub digits : ℕ → ℕ → Bytes
digits zero n = []
digits (suc k) n = digits k (n / 10) ++ (48 + n % 10) ∷ []

-- `%020d` of a uint64, which has 20 digits at most.
unfoldable pub format20 : ℕ → Bytes
format20 = digits 20

-- The value of a run of digits, or none at another byte.
parse_from : ℕ → Bytes → Option ℕ
parse_from acc [] = some acc
parse_from acc (c ∷ cs) =
    let rest = parse_from (acc * 10 + (c - 48)) cs in if leb 48 c && leb c 57 then rest else none

below : ℕ → Option ℕ → Option ℕ
below bound none = none
below bound (some n) = if ltb n bound then some n else none

parse_below : ℕ → Bytes → Option ℕ
parse_below bound [] = none
parse_below bound (c ∷ cs) = below bound (parse_from 0 (c ∷ cs))

-- strconv.ParseUint(s, 10, 64)
pub parse_uint : Bytes → Option ℕ
parse_uint = parse_below (2 ^ 64)

negate : Option ℕ → Option ℕ
negate none = none
negate (some n) = some ((2 ^ 64 - n) % 2 ^ 64)

-- uint64(strconv.Atoi(s)), with a sign in front or none.
pub atoi : Bytes → Option ℕ
atoi [] = none
atoi (c ∷ cs) =
    if c == b'-'
    then negate (parse_below (2 ^ 63 + 1) cs)
    else if c == b'+'
    then parse_below (2 ^ 63) cs
    else parse_below (2 ^ 63) (c ∷ cs)

-- What ParseUint and Atoi return next to an error as well: 0 for the syntax, the nearest bound for the
-- range, at the digit that leaves it.
unfoldable pub scan_value : ℕ → Bytes → ℕ
scan_value acc [] = acc
scan_value acc (c ∷ cs) =
    let n = acc * 10 + (c - 48) in
    let rest = scan_value n cs in
    if leb 48 c && leb c 57 then (if ltb n (2 ^ 64) then rest else 2 ^ 64 - 1) else 0

unfoldable pub atoi_value : Bytes → ℕ
atoi_value [] = 0
atoi_value (c ∷ cs) =
    if c == b'-'
    then (let v = scan_value 0 cs in if ltb (2 ^ 63) v then 2 ^ 63 else (2 ^ 64 - v) % 2 ^ 64)
    else let v = scan_value 0 (if c == b'+' then cs else c ∷ cs) in
      if ltb v (2 ^ 63) then v else 2 ^ 63 - 1

parse_from-append :
    (acc : ℕ) (xs : Bytes) (d v : ℕ)
    → d < 10
    → parse_from acc xs ≡ some v
    → parse_from acc (xs ++ (48 + d) ∷ []) ≡ some (v * 10 + d)
unfolding parse_from
parse_from-append acc [] d v h e = ground arith
parse_from-append acc (x ∷ xs) d v h e =
    ground (arith, parse_from-append (acc * 10 + (x - 48)) xs d v h)

parse_from-digits : (k n : ℕ) → n < 10 ^ k → parse_from 0 (digits k n) ≡ some n
unfolding digits
parse_from-digits zero n h = unfold parse_from in ground arith
parse_from-digits (suc k) n h =
    let prior = parse_from-digits k (n / 10) (omega (arith, pow-suc 10 k)) in
    let whole : n / 10 * 10 + n % 10 ≡ n = omega (arith, div-add-mod n 10) in
    parse_from-append 0 (digits k (n / 10)) (n % 10) (n / 10) (omega arith) prior ∙ ap some whole

length-digits : (k n : ℕ) → length (digits k n) ≡ k
unfolding digits
length-digits zero n = refl
length-digits (suc k) n =
    omega (arith, length-append (digits k (n / 10)) ((48 + n % 10) ∷ []), length-digits k (n / 10))

-- What `parse_from` reads is no sign.
parse_uint-parse_from :
    (bs : Bytes) (n : ℕ)
    → 0 < length bs
    → parse_from 0 bs ≡ some n
    → n < 2 ^ 64
    → parse_uint bs ≡ some n
unfolding parse_uint parse_below below
parse_uint-parse_from [] n l e h = absurd (omega arith)
parse_uint-parse_from (c ∷ cs) n l e h = rw e (ground arith)

atoi-parse_from :
    (bs : Bytes) (n : ℕ) → 0 < length bs → parse_from 0 bs ≡ some n → n < 2 ^ 63 → atoi bs ≡ some n
unfolding atoi parse_below below parse_from
atoi-parse_from [] n l e h = absurd (omega arith)
atoi-parse_from (c ∷ cs) n l e h = ground arith

-- A uint64 that was formatted with 20 digits is read back.
pub parse_uint-format20 : (n : ℕ) → n < 2 ^ 64 → parse_uint (format20 n) ≡ some n
unfolding format20
parse_uint-format20 n h =
    parse_uint-parse_from (digits 20 n) n (omega (arith, length-digits 20 n))
      (parse_from-digits 20 n (omega arith)) h

-- `Atoi` reads it back only below 2 ^ 63.
pub atoi-format20 : (n : ℕ) → n < 2 ^ 63 → atoi (format20 n) ≡ some n
unfolding format20
atoi-format20 n h =
    atoi-parse_from (digits 20 n) n (omega (arith, length-digits 20 n))
      (parse_from-digits 20 n (omega arith)) h
