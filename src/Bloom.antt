-- ===== src/Bloom.antt =====
-- internal/sstable/bloom/bloom.go: the bloom filter and its builder. The number of probes is computed
-- in float32: it is a parameter.
pub mod Bits
pub mod Positive
pub mod Codec
pub mod Probes
mod Samples
use Prim.Native.Nat.{bit_xor}
use slatedb_go.Prelude.{
  ℕ, zero, suc, ◌+◌, ◌*◌, ◌/◌, ◌%◌, ◌^◌, Bool, true, false, Option, none, some, List, [], ◌∷◌, ◌++◌,
  length, ◌==◌, if◌then◌else◌, get_elem?,
}
use slatedb_go.Prelude.Bytes.{Bytes}
use slatedb_go.Prelude.Result.{Result, ok, panic, ◌>>=◌}
use slatedb_go.Bloom.Bits.{test, set, update}

pub record Filter : Type 0 where
  pub num_probes : ℕ
  pub data_bytes : Bytes

-- hash/fnv: FNV-1 with 64 bits.
unfoldable pub hash_loop : ℕ → Bytes → ℕ
hash_loop h [] = h
hash_loop h (b ∷ bs) = hash_loop (bit_xor (h * 1099511628211 % 2 ^ 64) b) bs

unfoldable pub filter_hash : Bytes → ℕ
filter_hash key = hash_loop 14695981039346656037 key

-- `i` counts the probes that were made.
unfoldable pub probes_loop : ℕ → ℕ → ℕ → ℕ → ℕ → List ℕ
probes_loop zero i h delta bits = []
probes_loop (suc n) i h delta bits =
    let next = (delta + i) % bits in
    h % 2 ^ 32 ∷ probes_loop n (i + 1) ((h + next) % bits) next bits

-- A remainder by 0 panics.
unfoldable pub probes_for_key : ℕ → ℕ → ℕ → Result ⊥ (List ℕ)
probes_for_key hash n bits =
    if bits == 0
    then panic
    else ok (probes_loop n 0 (hash % 2 ^ 32 % bits) (hash / 2 ^ 32 % bits) bits)

-- An index past the end panics.
pub check_bit : ℕ → Bytes → Result ⊥ Bool
check_bit bit buf = elim (get_elem? buf (bit / 8)) [ none ↦ panic | some b ↦ ok (test (bit % 8) b) ]

unfoldable pub set_bit : ℕ → Bytes → Result ⊥ Bytes
set_bit bit buf = elim (get_elem? buf (bit / 8)) [
  | none ↦ panic
  | some b ↦ ok (update (bit / 8) (set (bit % 8) b) buf)
]

-- The loop over the probes.
pub check_all : List ℕ → Bytes → Result ⊥ Bool
check_all [] buf = ok true
check_all (p ∷ ps) buf = do b ← check_bit p buf; if b then check_all ps buf else ok false

pub has_key : Filter → Bytes → Result ⊥ Bool
has_key f key = if length f.data_bytes == 0 then ok false else do
  probes ← probes_for_key (filter_hash key) f.num_probes (length f.data_bytes * 8 % 2 ^ 32)
  check_all probes f.data_bytes

pub record Builder : Type 0 where
  pub key_hashes : List ℕ
  pub bits_per_key : ℕ

unfoldable pub new_builder : ℕ → Builder
new_builder bits_per_key = record { key_hashes = []; bits_per_key = bits_per_key }

unfoldable pub add : Builder → Bytes → Builder
add b key = record b { key_hashes = b.key_hashes ++ filter_hash key ∷ [] }

-- In uint32 arithmetic.
unfoldable pub filter_bytes : ℕ → ℕ → ℕ
filter_bytes keys bits_per_key = (keys * bits_per_key + 7) % 2 ^ 32 / 8

unfoldable pub zeros : ℕ → Bytes
zeros zero = []
zeros (suc n) = 0 ∷ zeros n

unfoldable pub set_all : List ℕ → Bytes → Result ⊥ Bytes
set_all [] buf = ok buf
set_all (p ∷ ps) buf = do buf ← set_bit p buf; set_all ps buf

unfoldable pub set_keys : List ℕ → ℕ → ℕ → Bytes → Result ⊥ Bytes
set_keys [] n bits buf = ok buf
set_keys (k ∷ ks) n bits buf = do
  probes ← probes_for_key k n bits
  buf ← set_all probes buf
  set_keys ks n bits buf

unfoldable pub build : (ℕ → ℕ) → Builder → Result ⊥ Filter
build optimal_num_probes b =
    if length b.key_hashes == 0 then ok (record { num_probes = 0; data_bytes = [] }) else do
      let n = optimal_num_probes b.bits_per_key
      let bytes = filter_bytes (length b.key_hashes % 2 ^ 32) b.bits_per_key
      buf ← set_keys b.key_hashes n (bytes * 8 % 2 ^ 32) (zeros bytes)
      ok (record { num_probes = n; data_bytes = buf })
