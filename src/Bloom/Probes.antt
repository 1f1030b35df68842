-- ===== src/Bloom/Probes.antt =====
-- The number of probes of a filter that was built (internal/sstable/bloom/bloom.go).
use slatedb_go.Prelude.{ℕ, ◌^◌, ◌<◌, ◌≡◌, refl, arith, Bool-cases, inl, inr, length, ◌==◌, []}
use slatedb_go.Prelude.Result.{ok, >>=-eq-ok}
use slatedb_go.Bloom.{Filter, Builder, build, set_keys}

-- If the computed numbers fit in 16 bits, then so does the number of a filter.
pub build_probes :
    (probes : ℕ → ℕ) (b : Builder) (f : Filter)
    → ((n : ℕ) → probes n < 2 ^ 16)
    → build probes b ≡ ok f
    → f.num_probes < 2 ^ 16
unfolding build
build_probes probes b f small done = elim (Bool-cases (length b.key_hashes == 0)) [
  | inl e ↦
      let step : build probes b ≡ ok (record { num_probes = 0; data_bytes = [] }) =
        rw (e, build) refl in
      let same : 0 ≡ f.num_probes = cc in rw (← same) (omega arith)
  | inr e ↦
      let inner = rw (e, build) at done in
      let (buf, set, last) =
        >>=-eq-ok (set_keys b.key_hashes (probes b.bits_per_key) _ _) _ inner in
      let same : probes b.bits_per_key ≡ f.num_probes = cc in rw (← same) (small b.bits_per_key)
]
