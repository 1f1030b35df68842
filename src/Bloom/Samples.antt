-- ===== src/Bloom/Samples.antt =====
-- A bloom filter with two keys.
use slatedb_go.Prelude.{ℕ, ◌*◌, ◌/◌, ◌%◌, ◌^◌, ◌≡◌, ◌≢◌, refl, arith, true, [], ◌∷◌, length}
use slatedb_go.Prelude.Result.{ok}
use slatedb_go.Bloom.{Filter, Builder, new_builder, add, build, has_key, filter_hash, filter_bytes}
use slatedb_go.Bloom.Positive.{has_key-build}

abbrev builder : Builder
builder = add (add (new_builder 10) (1 ∷ 2 ∷ [])) (3 ∷ [])

-- The float32 product with 0.69, rounded down.
abbrev optimal : ℕ → ℕ
optimal bits_per_key = bits_per_key * 69 / 100

big_enough : filter_bytes (length builder.key_hashes % 2 ^ 32) builder.bits_per_key ≢ 0
unfolding add new_builder filter_bytes
big_enough = λ e. absurd (omega arith)

two_hashes : builder.key_hashes ≡ filter_hash (1 ∷ 2 ∷ []) ∷ filter_hash (3 ∷ []) ∷ []
unfolding add new_builder
two_hashes = refl

has_key-build_example :
    (f : Filter) × (build optimal builder ≡ ok f) × (has_key f (3 ∷ []) ≡ ok true)
has_key-build_example =
    has_key-build optimal builder (filter_hash (1 ∷ 2 ∷ []) ∷ []) [] (3 ∷ []) two_hashes big_enough
