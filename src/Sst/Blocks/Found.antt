-- ===== src/Sst/Blocks/Found.antt =====
-- Where a block stands in the object of a table, and that it is read there (internal/sstable/decode.go).
use mathlib.Core.List.{append_assoc}
use slatedb_go.Prelude.{
  ℕ, zero, suc, ◌+◌, ◌%◌, ◌^◌, ◌<◌, ◌≡◌, refl, sym, ap, subst, ◌∙◌, arith, ◌⊎◌, inl, inr, some,
  List, [], ◌∷◌, ◌++◌, length, get_elem?, length-append,
}
use slatedb_go.Prelude.Bytes.{Bytes}
use slatedb_go.Compress.{Library}
use slatedb_go.Block.Layout.{Entry}
use slatedb_go.Sst.FirstBlock.{BlockMeta}
use slatedb_go.Sst.Build.{Config, concat}
use slatedb_go.Sst.Build.Stored.{IsBlockOf, Stored}

module _ (l : Library) (conf : Config) where
  -- What comes at `n`: the block `k` of the index, or the end.
  abbrev Next : ℕ → List BlockMeta → ℕ → Bytes → Type 0
  Next n ms k behind =
      ((k ≡ length ms) × (behind ≡ []))
      ⊎ ((m : BlockMeta) × (k < length ms) × (get_elem? ms k ≡ some m) × (m.offset ≡ n % 2 ^ 64))

  -- The block `k` stands between `before` and `behind`, up to the next one of the index or to the end.
  pub record Found (n : ℕ) (ms : List BlockMeta) (bs : List Bytes) (k : ℕ) (es : List Entry)
      : Type 0 where
    pub meta : BlockMeta
    pub buf : Bytes
    pub before : Bytes
    pub behind : Bytes
    pub inside : k < length ms
    pub listed : get_elem? ms k ≡ some meta
    pub at : meta.offset ≡ (n + length before) % 2 ^ 64
    pub block : IsBlockOf l conf buf es
    pub bytes : concat bs ≡ before ++ (buf ++ behind)
    pub next : Next (n + length before + length buf) ms (suc k) behind

  first :
      (n : ℕ) (ms : List BlockMeta) (bs : List Bytes) (ess : List (List Entry))
      → Stored l conf n ms bs ess
      → Next n ms 0 (concat bs)
  unfolding concat
  first n [] [] ess s = inl (refl, refl)
  first n [] (b ∷ bs) ess s = absurd s
  first n (m ∷ ms) [] ess s = absurd s
  first n (m ∷ ms) (b ∷ bs) [] s = absurd s
  first n (m ∷ ms) (b ∷ bs) (es ∷ ess) s = inr (m, omega arith, refl, s.0)

  further :
      (n p : ℕ) (m : BlockMeta) (ms : List BlockMeta) (k : ℕ) (behind : Bytes)
      → n ≡ p
      → Next n ms k behind
      → Next p (m ∷ ms) (suc k) behind
  further n p m ms k behind same (inl (end, none_left)) = inl (omega (arith, end), none_left)
  further n p m ms k behind same (inr (x, inside, listed, at)) =
      inr (x, omega arith, listed, at ∙ ap (λ t. t % 2 ^ 64) same)

  pub found :
      (n : ℕ) (ms : List BlockMeta) (bs : List Bytes) (ess : List (List Entry)) (k : ℕ)
      (es : List Entry)
      → Stored l conf n ms bs ess
      → get_elem? ess k ≡ some es
      → Found n ms bs k es
  unfolding concat
  found n [] [] [] k es s e = cc
  found n [] [] (x ∷ ess) k es s e = absurd s
  found n [] (b ∷ bs) ess k es s e = absurd s
  found n (m ∷ ms) [] ess k es s e = absurd s
  found n (m ∷ ms) (b ∷ bs) [] k es s e = absurd s
  found n (m ∷ ms) (b ∷ bs) (x ∷ ess) zero es s e =
      let same : x ≡ es = cc in
      record {
        meta = m;
        buf = b;
        before = [];
        behind = concat bs;
        inside = omega arith;
        listed = refl;
        at = s.0 ∙ ap (λ t. t % 2 ^ 64) (omega arith);
        block = subst (λ t. IsBlockOf l conf b t) same s.1;
        bytes = refl;
        next =
            further (n + length b) (n + 0 + length b) m ms 0 (concat bs) (omega arith)
              (first (n + length b) ms bs ess s.2);
      }
  found n (m ∷ ms) (b ∷ bs) (x ∷ ess) (suc k) es s e =
      let f = found (n + length b) ms bs ess k es s.2 e in
      let size = length-append b f.before in
      record {
        meta = f.meta;
        buf = f.buf;
        before = b ++ f.before;
        behind = f.behind;
        inside = omega (arith, f.inside);
        listed = f.listed;
        at = f.at ∙ ap (λ t. t % 2 ^ 64) (omega (arith, size));
        block = f.block;
        bytes = ap (λ t. b ++ t) f.bytes ∙ sym (append_assoc b f.before (f.buf ++ f.behind));
        next =
            further (n + length b + length f.before + length f.buf)
              (n + length (b ++ f.before) + length f.buf) m ms (suc k) f.behind
              (omega (arith, size)) f.next;
      }
