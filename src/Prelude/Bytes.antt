-- ===== src/Prelude/Bytes.antt =====
-- Package bytes: slices of bytes as lists of numbers, their lexicographic order and equality.
use Prim.Native.Nat.{ℕ, ◌<◌, compare, Ordering}
use mathlib.Core.Path.{◌≡◌, refl}
use mathlib.Core.Logic.{◌↔◌}
use mathlib.Core.Bool.{Bool, true, false}
use mathlib.Core.List.{List, [], ◌∷◌}
use native.Mathlib.Omega.{arith}

abbrev pub Bytes : Type 0
Bytes = List ℕ

abbrev pub IsByte : ℕ → Type 0
IsByte b = b < 256

-- bytes.Compare
unfoldable pub compare_bytes : Bytes → Bytes → Ordering
compare_bytes [] [] = Ordering.eq
compare_bytes [] (y ∷ ys) = Ordering.lt
compare_bytes (x ∷ xs) [] = Ordering.gt
compare_bytes (x ∷ xs) (y ∷ ys) = elim (compare x y) [
  | Ordering.lt ↦ Ordering.lt
  | Ordering.eq ↦ compare_bytes xs ys
  | Ordering.gt ↦ Ordering.gt
]

-- bytes.Equal
abbrev pub equal_bytes : Bytes → Bytes → Bool
equal_bytes a b = elim (compare_bytes a b) [ Ordering.eq ↦ true | _ ↦ false ]

abbrev pub lt_bytes : Bytes → Bytes → Bool
lt_bytes a b = elim (compare_bytes a b) [ Ordering.lt ↦ true | _ ↦ false ]

abbrev pub le_bytes : Bytes → Bytes → Bool
le_bytes a b = elim (compare_bytes a b) [ Ordering.gt ↦ false | _ ↦ true ]

abbrev pub gt_bytes : Bytes → Bytes → Bool
gt_bytes a b = elim (compare_bytes a b) [ Ordering.gt ↦ true | _ ↦ false ]

pub compare_bytes_refl : (a : Bytes) → compare_bytes a a ≡ Ordering.eq
unfolding compare_bytes
compare_bytes_refl [] = refl
compare_bytes_refl (x ∷ xs) = ground (arith, compare_bytes_refl xs)

pub compare_bytes_eq : (a b : Bytes) → compare_bytes a b ≡ Ordering.eq → a ≡ b
unfolding compare_bytes
compare_bytes_eq [] [] h = refl
compare_bytes_eq [] (y ∷ ys) h = cc
compare_bytes_eq (x ∷ xs) [] h = cc
compare_bytes_eq (x ∷ xs) (y ∷ ys) h = ground (arith, compare_bytes_eq xs ys)

pub lt_bytes_trans :
    (a b c : Bytes) → lt_bytes a b ≡ true → lt_bytes b c ≡ true → lt_bytes a c ≡ true
unfolding compare_bytes
lt_bytes_trans [] [] c p q = cc
lt_bytes_trans [] (y ∷ ys) [] p q = cc
lt_bytes_trans [] (y ∷ ys) (z ∷ zs) p q = refl
lt_bytes_trans (x ∷ xs) [] c p q = cc
lt_bytes_trans (x ∷ xs) (y ∷ ys) [] p q = cc
lt_bytes_trans (x ∷ xs) (y ∷ ys) (z ∷ zs) p q = ground (arith, lt_bytes_trans xs ys zs)

-- The two directions of a comparison mirror one another.
pub compare_bytes_swap :
    (a b : Bytes) → (compare_bytes a b ≡ Ordering.gt) ↔ (compare_bytes b a ≡ Ordering.lt)
unfolding compare_bytes
compare_bytes_swap [] [] = ground arith
compare_bytes_swap [] (y ∷ ys) = ground arith
compare_bytes_swap (x ∷ xs) [] = ground arith
compare_bytes_swap (x ∷ xs) (y ∷ ys) = ground (arith, compare_bytes_swap xs ys)

pub equal_bytes_iff : (a b : Bytes) → (equal_bytes a b ≡ true) ↔ (a ≡ b)
equal_bytes_iff a b = ground (arith, compare_bytes_refl a, compare_bytes_eq a b)

pub equal_bytes_refl : (a : Bytes) → equal_bytes a a ≡ true
equal_bytes_refl a = (equal_bytes_iff a a).1 refl

pub lt_bytes_asymm : (a b : Bytes) → lt_bytes a b ≡ true → lt_bytes b a ≡ false
unfolding compare_bytes
lt_bytes_asymm [] [] h = refl
lt_bytes_asymm [] (y ∷ ys) h = refl
lt_bytes_asymm (x ∷ xs) [] h = cc
lt_bytes_asymm (x ∷ xs) (y ∷ ys) h = ground (arith, lt_bytes_asymm xs ys)
