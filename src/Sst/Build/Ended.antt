-- ===== src/Sst/Build/Ended.antt =====
-- The blocks of a table whose last block is finished (internal/sstable/builder.go).
use mathlib.Core.List.{append_assoc, append-nil}
use slatedb_go.Prelude.{
  ℕ, ◌+◌, ◌%◌, ◌^◌, ◌≡◌, refl, sym, ap, subst, ◌∙◌, arith, tt, Bool, true, false, Bool-cases, inl,
  inr, List, [], ◌∷◌, ◌++◌, All, length,
}
use slatedb_go.Prelude.Bytes.{Bytes}
use slatedb_go.Prelude.Result.{ok}
use slatedb_go.Compress.{Library}
use slatedb_go.Block
use slatedb_go.Block.{is_empty}
use slatedb_go.Block.Layout.{Entry}
use slatedb_go.Block.Stored.{add_all, add_all-new_builder}
use slatedb_go.State.{Deques}
use slatedb_go.Sst.FirstBlock.{BlockMeta}
use slatedb_go.Sst.Index.{IsMeta}
use slatedb_go.Sst.Build.{Config, Builder, concat, finish_block}
use slatedb_go.Sst.Build.Laid.{IsLaid, concat-snoc}
use slatedb_go.Sst.Build.Stored.{IsBlockOf, Stored, Stored-snoc, all_rows, all_rows-snoc}
use slatedb_go.Sst.Build.Kept.{Kept, finished, after_finish}

pub concat-append : (xs ys : List Bytes) → concat (xs ++ ys) ≡ concat xs ++ concat ys
unfolding concat
concat-append [] ys = refl
concat-append (x ∷ xs) ys =
    ap (λ t. x ++ t) (concat-append xs ys) ∙ sym (append_assoc x (concat xs) (concat ys))

-- A block builder without rows was given none.
no_rows :
    (size : ℕ) (es : List Entry) (b : Block.Builder)
    → add_all (Block.new_builder size) es ≡ ok (b, true)
    → is_empty b ≡ true
    → es ≡ []
unfolding is_empty
no_rows size [] b added empty = refl
no_rows size ((k, r) ∷ es) b added empty =
    let (held, _, _) = add_all-new_builder size ((k, r) ∷ es) b added in
    let some_offset = ap length held.offsets in ground (arith, some_offset, empty)

pub some_rows :
    (size : ℕ) (es : List Entry) (b : Block.Builder)
    → add_all (Block.new_builder size) es ≡ ok (b, true)
    → is_empty b ≡ false
    → (e : Entry) × (rest : List Entry) × (es ≡ e ∷ rest)
unfolding is_empty add_all Block.new_builder
some_rows size [] b added filled =
    let same : Block.new_builder size ≡ b = cc in
    let no : ◌≡◌ {A = Bool} true false = rw (← same) at filled in absurd (cc)
some_rows size (e ∷ es) b added filled = (e, es, refl)

All-IsMeta :
    (l : Library) (conf : Config) (n : ℕ) (ms : List BlockMeta) (bs : List Bytes)
    (ess : List (List Entry))
    → Stored l conf n ms bs ess
    → All IsMeta ms
All-IsMeta l conf n [] bs ess s = tt
All-IsMeta l conf n (m ∷ ms) [] ess s = absurd s
All-IsMeta l conf n (m ∷ ms) (b ∷ bs) [] s = absurd s
All-IsMeta l conf n (m ∷ ms) (b ∷ bs) (es ∷ ess) s =
    (omega (arith, s.0), All-IsMeta l conf (n + length b) ms bs ess s.2)

module _ (d : Deques) (l : Library) where
  pub IsLaid-Kept :
      (front : List Bytes) (b : Builder d) (rows : List Entry)
      → Kept d l front b rows
      → IsLaid d (concat front) b
  IsLaid-Kept front b rows k = record {
    len = k.len ∙ ap (λ t. length t % 2 ^ 64) (concat-append front (d.items b.blocks));
    metas = All-IsMeta l b.conf 0 b.block_metas (front ++ d.items b.blocks) k.parts k.stored;
  }

  -- All rows stand in finished blocks.
  pub record Ended (front : List Bytes) (b c : Builder d) (blk : Bytes) (rows : List Entry)
      : Type 0 where
    pub blocks : List Bytes
    pub parts : List (List Entry)
    pub stored : Stored l b.conf 0 c.block_metas blocks parts
    pub bytes : concat blocks ≡ concat (front ++ d.items b.blocks) ++ blk
    pub order : all_rows parts ≡ rows
    pub conf : c.conf ≡ b.conf
    pub same_blocks : c.blocks ≡ b.blocks
    pub current_len : c.current_len ≡ b.current_len

  pub ended :
      (front : List Bytes) (b c : Builder d) (blk : Bytes) (rows : List Entry)
      → Kept d l front b rows
      → finish_block d l b ≡ ok (blk, c)
      → Ended front b c blk rows
  unfolding finish_block
  ended front b c blk rows k done =
      let before = front ++ d.items b.blocks in
      elim (Bool-cases (is_empty b.block_builder)) [
        | inl e ↦
            let step : finish_block d l b ≡ ok ([], b) = rw (e, finish_block) refl in
            let same : b ≡ c = cc in
            let nothing : [] ≡ blk = cc in
            let none_left = no_rows b.conf.block_size k.last b.block_builder k.block e in
            let here : Ended front b b [] rows = record {
              blocks = before;
              parts = k.parts;
              stored = k.stored;
              bytes = sym (append-nil (concat before));
              order =
                  sym (append-nil (all_rows k.parts))
                  ∙ ap (λ t. all_rows k.parts ++ t) (sym none_left)
                  ∙ k.order;
              conf = refl;
              same_blocks = refl;
              current_len = refl;
            } in
            subst (λ t. Ended front b c t rows) nothing
              (subst (λ t. Ended front b t [] rows) same here)
        | inr e ↦
            let (x, built, coded, same) = finished d l b c blk done e in
            let has : IsBlockOf l b.conf blk k.last = record {
              builder = b.block_builder;
              blk = x;
              rows = k.block;
              some_row = e;
              built = built;
              encoded = coded;
            } in
            let here : Ended front b (after_finish d l b x) blk rows = record {
              blocks = before ++ blk ∷ [];
              parts = k.parts ++ k.last ∷ [];
              stored =
                  Stored-snoc l b.conf 0 b.block_metas before k.parts
                    (record { offset = b.current_len; first_key = x.first_key }) blk k.last k.stored
                    (k.len ∙ ap (λ n. n % 2 ^ 64) (omega arith)) has;
              bytes = concat-snoc before blk;
              order = all_rows-snoc k.parts k.last ∙ k.order;
              conf = refl;
              same_blocks = refl;
              current_len = refl;
            } in
            subst (λ t. Ended front b t blk rows) same here
      ]
