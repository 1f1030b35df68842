-- ===== src/Bloom/Bits.antt =====
-- The bits of a byte and of an array of bytes, by halving: `b & (1 << k) != 0` and `b | 1 << k`.
use slatedb_go.Prelude.{
  ℕ, zero, suc, ◌+◌, ◌*◌, ◌/◌, ◌%◌, ◌<◌, ◌≡◌, ◌≢◌, refl, ap, arith, Bool, true, some, [], ◌∷◌,
  length, ◌==◌, if◌then◌else◌, get_elem?,
}
use slatedb_go.Prelude.Bytes.{Bytes}

unfoldable pub test : ℕ → ℕ → Bool
test zero b = b % 2 == 1
test (suc k) b = test k (b / 2)

unfoldable pub set : ℕ → ℕ → ℕ
set zero b = if b % 2 == 1 then b else b + 1
set (suc k) b = b % 2 + 2 * set k (b / 2)

unfoldable pub update : ℕ → ℕ → Bytes → Bytes
update i b [] = []
update zero b (x ∷ xs) = b ∷ xs
update (suc i) b (x ∷ xs) = x ∷ update i b xs

half : (b x : ℕ) → (b % 2 + 2 * x) / 2 ≡ x
half b x = omega arith

parity : (b x : ℕ) → (b % 2 + 2 * x) % 2 ≡ b % 2
parity b x = omega arith

half_up : (b : ℕ) → (if b % 2 == 1 then b else b + 1) / 2 ≡ b / 2
half_up b = ground arith

pub test-set : (k b : ℕ) → test k (set k b) ≡ true
unfolding test set
test-set zero b = ground arith
test-set (suc k) b = rw (half b (set k (b / 2))) (test-set k (b / 2))

-- A bit that is set stays set.
pub test-set_other : (j k b : ℕ) → test j b ≡ true → test j (set k b) ≡ true
unfolding test set
test-set_other zero zero b h = ground arith
test-set_other zero (suc k) b h = rw (parity b (set k (b / 2))) h
test-set_other (suc j) zero b h = rw (half_up b) h
test-set_other (suc j) (suc k) b h = rw (half b (set k (b / 2))) (test-set_other j k (b / 2) h)

pub length-update : (i b : ℕ) (xs : Bytes) → length (update i b xs) ≡ length xs
unfolding update
length-update i b [] = refl
length-update zero b (x ∷ xs) = refl
length-update (suc i) b (x ∷ xs) = omega (arith, length-update i b xs)

pub get_elem?-update :
    (i b c : ℕ) (xs : Bytes) → get_elem? xs i ≡ some c → get_elem? (update i b xs) i ≡ some b
unfolding update
get_elem?-update i b c [] h = cc
get_elem?-update zero b c (x ∷ xs) h = refl
get_elem?-update (suc i) b c (x ∷ xs) h = get_elem?-update i b c xs h

pub get_elem?-update_other :
    (i j b : ℕ) (xs : Bytes) → i ≢ j → get_elem? (update i b xs) j ≡ get_elem? xs j
unfolding update
get_elem?-update_other i j b [] n = refl
get_elem?-update_other zero zero b (x ∷ xs) n = absurd (n refl)
get_elem?-update_other zero (suc j) b (x ∷ xs) n = refl
get_elem?-update_other (suc i) zero b (x ∷ xs) n = refl
get_elem?-update_other (suc i) (suc j) b (x ∷ xs) n =
    get_elem?-update_other i j b xs (λ e. n (ap suc e))

pub get_elem?-some : (i : ℕ) (xs : Bytes) → i < length xs → (b : ℕ) × (get_elem? xs i ≡ some b)
get_elem?-some i [] h = elim h [ ]
get_elem?-some zero (x ∷ xs) h = (x, refl)
get_elem?-some (suc i) (x ∷ xs) h = get_elem?-some i xs (omega arith)
