-- ===== src/Sst/Build/Stored.antt =====
-- Which rows stand in which block while a table is built (internal/sstable/builder.go).
use mathlib.Core.List.{append_assoc, append-nil}
use slatedb_go.Prelude.{
  ℕ, ◌+◌, ◌%◌, ◌^◌, ◌≡◌, refl, sym, ap, ◌∙◌, arith, tt, Bool, true, false, Bool-cases, inl, inr,
  List, [], ◌∷◌, ◌++◌, length, length-append,
}
use slatedb_go.Prelude.Bytes.{Bytes}
use slatedb_go.Prelude.Result.{Result, ok, >>=-eq-ok}
use slatedb_go.Compress.{Library}
use slatedb_go.Block
use slatedb_go.Block.{Block, plain_row, is_empty, clone_first}
use slatedb_go.Block.Layout.{Entry}
use slatedb_go.Block.Stored.{add_all}
use slatedb_go.Sst.FirstBlock.{BlockMeta}
use slatedb_go.Sst.Build.{Config, concat}

pub add_all-snoc :
    (b c e : Block.Builder) (es : List Entry) (x : Entry)
    → add_all b es ≡ ok (c, true)
    → Block.add c x.0 x.1 ≡ ok (e, true)
    → add_all b (es ++ x ∷ []) ≡ ok (e, true)
unfolding add_all
add_all-snoc b c e [] x all one = let same : b ≡ c = cc in rw (same, one) refl
add_all-snoc b c e ((k, r) ∷ es) x all one =
    let (p, took, rest) = >>=-eq-ok (Block.add b k r) _ all in
    elim (Bool-cases p.1) [
      | inl y ↦
          let more : add_all p.0 es ≡ ok (c, true) = rw y at rest in
          rw (took, y) (add_all-snoc p.0 c e es x more one)
      | inr n ↦
          let stop : ◌≡◌ {A = Result ⊥ (Block.Builder × Bool)} (ok (p.0, false)) (ok (c, true)) =
            rw n at rest in
          cc
    ]

module _ (l : Library) (conf : Config) where
  -- The bytes of a block that has these rows.
  pub record IsBlockOf (buf : Bytes) (es : List Entry) : Type 0 where
    pub builder : Block.Builder
    pub blk : Block
    pub rows : add_all (Block.new_builder conf.block_size) es ≡ ok (builder, true)
    pub some_row : is_empty builder ≡ false
    pub built : Block.build builder ≡ ok blk
    pub encoded : Block.encode l blk conf.compression ≡ ok buf

  -- The blocks stand one after another from `n` on, as the index has it, each with its rows.
  abbrev pub Stored : ℕ → List BlockMeta → List Bytes → List (List Entry) → Type 0
  Stored n [] [] [] = Unit
  Stored n (m ∷ ms) (b ∷ bs) (es ∷ ess) =
      (m.offset ≡ n % 2 ^ 64) × IsBlockOf b es × Stored (n + length b) ms bs ess
  Stored n [] [] (es ∷ ess) = ⊥
  Stored n [] (b ∷ bs) ess = ⊥
  Stored n (m ∷ ms) [] ess = ⊥
  Stored n (m ∷ ms) (b ∷ bs) [] = ⊥

  pub Stored-snoc :
      (n : ℕ) (ms : List BlockMeta) (bs : List Bytes) (ess : List (List Entry)) (m : BlockMeta)
      (b : Bytes) (es : List Entry)
      → Stored n ms bs ess
      → m.offset ≡ (n + length (concat bs)) % 2 ^ 64
      → IsBlockOf b es
      → Stored n (ms ++ m ∷ []) (bs ++ b ∷ []) (ess ++ es ∷ [])
  unfolding concat
  Stored-snoc n [] [] [] m b es s at has = (at ∙ ap (λ k. k % 2 ^ 64) (omega arith), has, tt)
  Stored-snoc n (x ∷ ms) (y ∷ bs) (z ∷ ess) m b es s at has = (
    s.0,
    s.1,
    Stored-snoc (n + length y) ms bs ess m b es s.2
        (at ∙ ap (λ k. k % 2 ^ 64) (omega (arith, length-append y (concat bs)))) has,
  )
  Stored-snoc n [] [] (z ∷ ess) m b es s at has = absurd s
  Stored-snoc n [] (y ∷ bs) ess m b es s at has = absurd s
  Stored-snoc n (x ∷ ms) [] ess m b es s at has = absurd s
  Stored-snoc n (x ∷ ms) (y ∷ bs) [] m b es s at has = absurd s

-- All rows, in the order of the blocks.
unfoldable pub all_rows : List (List Entry) → List Entry
all_rows [] = []
all_rows (es ∷ ess) = es ++ all_rows ess

pub all_rows-snoc :
    (ess : List (List Entry)) (es : List Entry) → all_rows (ess ++ es ∷ []) ≡ all_rows ess ++ es
unfolding all_rows
all_rows-snoc [] es = append-nil es
all_rows-snoc (x ∷ ess) es =
    ap (λ t. x ++ t) (all_rows-snoc ess es) ∙ sym (append_assoc x (all_rows ess) es)
