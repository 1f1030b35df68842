-- ===== src/Bloom/Positive.antt =====
-- A bloom filter (internal/sstable/bloom/bloom.go) finds every key that was added to its builder.
use native.Mathlib.Nat.{mod-lt}
use slatedb_go.Prelude.{
  ℕ, zero, suc, ◌+◌, ◌*◌, ◌/◌, ◌%◌, ◌^◌, ◌<◌, ◌≡◌, ◌≢◌, refl, tt, ap, subst, ◌∙◌, arith, true,
  false, some, List, [], ◌∷◌, ◌++◌, All, length, length-append, ◌==◌, get_elem?, ◌⊎◌, inl, inr,
}
use slatedb_go.Prelude.Bytes.{Bytes}
use slatedb_go.Prelude.Result.{ok}
use slatedb_go.Bloom.Bits.{
  test, set, update, test-set, test-set_other, length-update, get_elem?-update,
  get_elem?-update_other, get_elem?-some,
}
use slatedb_go.Bloom.{
  Filter, filter_hash, probes_loop, probes_for_key, check_bit, set_bit, check_all, has_key, Builder,
  filter_bytes, zeros, set_all, set_keys, build,
}

same_cases : (a b : ℕ) → (a ≡ b) ⊎ (a ≢ b)
same_cases a b = ground arith

-- A bit of the array is set.
IsOn : Bytes → ℕ → Type 0
IsOn buf p = (b : ℕ) × (get_elem? buf (p / 8) ≡ some b) × (test (p % 8) b ≡ true)

-- The second array has the length of the first, and the bits that are set in it.
record Grown (buf out : Bytes) : Type 0 where
  size : length out ≡ length buf
  kept : (q : ℕ) → IsOn buf q → IsOn out q

Grown-refl : (buf : Bytes) → Grown buf buf
Grown-refl buf = record { size = refl; kept = λ q s. s }

Grown-trans : (a b c : Bytes) → Grown a b → Grown b c → Grown a c
Grown-trans a b c g h = record { size = h.size ∙ g.size; kept = λ q s. h.kept q (g.kept q s) }

set_bit_lem :
    (p : ℕ) (buf : Bytes)
    → p / 8 < length buf
    → (out : Bytes) × (set_bit p buf ≡ ok out) × Grown buf out × IsOn out p
unfolding set_bit IsOn
set_bit_lem p buf h =
    let (b, e) = get_elem?-some (p / 8) buf h in
    let c = set (p % 8) b in
    let out = update (p / 8) c buf in
    let here = get_elem?-update (p / 8) c b buf e in
    let kept : (q : ℕ) → IsOn buf q → IsOn out q = λ q s. elim (same_cases (p / 8) (q / 8)) [
      | inr other ↦ (s.0, get_elem?-update_other (p / 8) (q / 8) c buf other ∙ s.1, s.2)
      | inl same ↦
          let at : get_elem? out (q / 8) ≡ some c =
            subst (λ i. get_elem? out i ≡ some c) same here in
          let old : get_elem? buf (q / 8) ≡ some b = subst (λ i. get_elem? buf i ≡ some b) same e in
          let byte : s.0 ≡ b = cc in
          (c, at, test-set_other (q % 8) (p % 8) b (subst (λ x. test (q % 8) x ≡ true) byte s.2))
    ] in
    (
      out,
      rw (e, set_bit) refl,
      record { size = length-update (p / 8) c buf; kept = kept },
      (c, here, test-set (p % 8) b),
    )

-- All probes stay within the array.
IsWithin : ℕ → List ℕ → Type 0
IsWithin n ps = All (λ p. p / 8 < n) ps

set_all_lem :
    (ps : List ℕ) (buf : Bytes)
    → IsWithin (length buf) ps
    → (out : Bytes) × (set_all ps buf ≡ ok out) × Grown buf out × All (IsOn out) ps
unfolding set_all IsWithin
set_all_lem [] buf w = (buf, refl, Grown-refl buf, tt)
set_all_lem (p ∷ ps) buf w =
    let (b, e, g, s) = set_bit_lem p buf w.0 in
    let w2 : IsWithin (length b) ps = rw g.size w.1 in
    let (c, f, h, t) = set_all_lem ps b w2 in
    (c, rw (e, set_all) f, Grown-trans buf b c g h, (h.kept p s, t))

probes_loop-IsWithin :
    (n i h delta m : ℕ) → h < m * 8 → IsWithin m (probes_loop n i h delta (m * 8))
unfolding probes_loop IsWithin
probes_loop-IsWithin zero i h delta m lt = tt
probes_loop-IsWithin (suc n) i h delta m lt =
    let next = (delta + i) % (m * 8) in
    (
      omega arith,
      probes_loop-IsWithin n (i + 1) ((h + next) % (m * 8)) next m
          (mod-lt (h + next) (omega arith)),
    )

probes_for_key-IsWithin :
    (k n m : ℕ) → m ≢ 0 → (ps : List ℕ) × (probes_for_key k n (m * 8) ≡ ok ps) × IsWithin m ps
unfolding probes_for_key
probes_for_key-IsWithin k n m some_bytes =
    let some_bits : (m * 8 == 0) ≡ false = ground arith in
    let start = k % 2 ^ 32 % (m * 8) in
    let ps = probes_loop n 0 start (k / 2 ^ 32 % (m * 8)) (m * 8) in
    (ps, rw some_bits refl, probes_loop-IsWithin n 0 start _ m (mod-lt (k % 2 ^ 32) (omega arith)))

-- What the probes of one key set.
IsMarked : Bytes → ℕ → ℕ → Type 0
IsMarked buf n k = (ps : List ℕ) × (probes_for_key k n (length buf * 8) ≡ ok ps) × All (IsOn buf) ps

All-kept : (buf out : Bytes) (ps : List ℕ) → Grown buf out → All (IsOn buf) ps → All (IsOn out) ps
All-kept buf out [] g m = tt
All-kept buf out (p ∷ ps) g m = (g.kept p m.0, All-kept buf out ps g m.1)

kept-IsMarked : (buf out : Bytes) (n k : ℕ) → Grown buf out → IsMarked buf n k → IsMarked out n k
unfolding IsMarked
kept-IsMarked buf out n k g (ps, e, m) =
    let found : probes_for_key k n (length out * 8) ≡ ok ps = rw g.size e in
    (ps, found, All-kept buf out ps g m)

mark :
    (b : Bytes) (n k : ℕ) (ps : List ℕ)
    → probes_for_key k n (length b * 8) ≡ ok ps
    → All (IsOn b) ps
    → IsMarked b n k
unfolding IsMarked
mark b n k ps e s = (ps, e, s)

set_keys_lem :
    (ks : List ℕ) (n : ℕ) (buf : Bytes)
    → length buf ≢ 0
    → (out : Bytes) × (set_keys ks n (length buf * 8) buf ≡ ok out)
      × Grown buf out
      × All (IsMarked out n) ks
unfolding set_keys
set_keys_lem [] n buf h = (buf, refl, Grown-refl buf, tt)
set_keys_lem (k ∷ ks) n buf h =
    let (ps, e, w) = probes_for_key-IsWithin k n (length buf) h in
    let (b, f, g, s) = set_all_lem ps buf w in
    let h2 : length b ≢ 0 = rw g.size h in
    let (c, rest, g2, m) = set_keys_lem ks n b h2 in
    let rest2 : set_keys ks n (length buf * 8) b ≡ ok c = rw (← g.size) rest in
    let here : IsMarked b n k = mark b n k ps (rw g.size e) s in
    (c, rw (e, set_keys) (rw f rest2), Grown-trans buf b c g g2, (kept-IsMarked b c n k g2 here, m))

check_all_lem : (ps : List ℕ) (buf : Bytes) → All (IsOn buf) ps → check_all ps buf ≡ ok true
unfolding check_all check_bit IsOn
check_all_lem [] buf m = refl
check_all_lem (p ∷ ps) buf ((b, e, t), m) = rw (e, check_bit) (rw t (check_all_lem ps buf m))

length-zeros : (n : ℕ) → length (zeros n) ≡ n
unfolding zeros
length-zeros zero = refl
length-zeros (suc n) = omega (arith, length-zeros n)

All-middle : (P : ℕ → Type 0) (xs : List ℕ) (x : ℕ) (ys : List ℕ) → All P (xs ++ x ∷ ys) → P x
All-middle P [] x ys m = m.0
All-middle P (y ∷ xs) x ys m = All-middle P xs x ys m.1

filter_bytes-bound : (keys bits_per_key : ℕ) → filter_bytes keys bits_per_key < 2 ^ 29
unfolding filter_bytes
filter_bytes-bound keys bits_per_key = omega arith

marked_lem :
    (n : ℕ) (buf : Bytes) (key : Bytes)
    → length buf ≢ 0
    → length buf < 2 ^ 29
    → IsMarked buf n (filter_hash key)
    → has_key (record { num_probes = n; data_bytes = buf }) key ≡ ok true
unfolding has_key IsMarked
marked_lem n buf key h small (ps, e, m) =
    let some_bytes : (length buf == 0) ≡ false = ground arith in
    let bits : length buf * 8 % 2 ^ 32 ≡ length buf * 8 = omega arith in
    rw (some_bytes, has_key) (rw bits (rw e (check_all_lem ps buf m)))

-- Whatever the number of probes, if the array has at least one byte, then the builder makes a filter without
-- a panic, and the filter has each key whose hash was added.
pub has_key-build :
    (optimal_num_probes : ℕ → ℕ) (b : Builder) (front back : List ℕ) (key : Bytes)
    → b.key_hashes ≡ front ++ filter_hash key ∷ back
    → filter_bytes (length b.key_hashes % 2 ^ 32) b.bits_per_key ≢ 0
    → (f : Filter) × (build optimal_num_probes b ≡ ok f) × (has_key f key ≡ ok true)
unfolding build
has_key-build optimal_num_probes b front back key e h =
    let n = optimal_num_probes b.bits_per_key in
    let m = filter_bytes (length b.key_hashes % 2 ^ 32) b.bits_per_key in
    let size = length-zeros m in
    let small : m < 2 ^ 29 = filter_bytes-bound (length b.key_hashes % 2 ^ 32) b.bits_per_key in
    let some_bytes : length (zeros m) ≢ 0 = rw size h in
    let (out, set, g, marked) = set_keys_lem b.key_hashes n (zeros m) some_bytes in
    let bits : m * 8 % 2 ^ 32 ≡ length (zeros m) * 8 = rw size (omega arith) in
    let some_keys : (length b.key_hashes == 0) ≡ false =
      ground (arith, ap length e, length-append front (filter_hash key ∷ back)) in
    let result : build optimal_num_probes b ≡ ok (record { num_probes = n; data_bytes = out }) =
      rw (some_keys, build) (rw bits (rw set refl)) in
    let here : IsMarked out n (filter_hash key) =
      All-middle (IsMarked out n) front (filter_hash key) back
        (subst (λ l. All (IsMarked out n) l) e marked) in
    let out_size : length out ≡ m = g.size ∙ size in
    let some_out : length out ≢ 0 = rw out_size h in
    let small_out : length out < 2 ^ 29 = rw out_size small in
    (
      record { num_probes = n; data_bytes = out },
      result,
      marked_lem n out key some_out small_out here,
    )
