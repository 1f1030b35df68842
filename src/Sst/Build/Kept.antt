-- ===== src/Sst/Build/Kept.antt =====
-- The rows that were added to the builder of a table (internal/sstable/builder.go) are kept in order.
use mathlib.Core.List.{append_assoc}
use slatedb_go.Prelude.{
  ◌+◌, ◌%◌, ◌^◌, ◌≡◌, refl, sym, ap, subst, ◌∙◌, arith, tt, true, false, inl, inr, List, [], ◌∷◌,
  ◌++◌, length, length-append, List-cases,
}
use slatedb_go.Prelude.Bytes.{Bytes}
use slatedb_go.Prelude.Result.{Result, ok, err, panic, >>=-eq-ok}
use slatedb_go.Types.{Value}
use slatedb_go.Compress.{Library}
use slatedb_go.Block
use slatedb_go.Block.{Block, BlockError, plain_row, is_empty, clone_first}
use slatedb_go.Block.Layout.{Entry, add_lem}
use slatedb_go.Block.Stored.{add_all}
use slatedb_go.State.{Deques, IsDeque}
use slatedb_go.Sst.Build.{Config, Builder, concat, lift_block, new_builder, finish_block}
use slatedb_go.Sst.Build.Laid.{concat-snoc}
use slatedb_go.Sst.Build.Stored.{IsBlockOf, Stored, Stored-snoc, all_rows, all_rows-snoc}

pub lift_block-eq-ok :
    {T : Type 0} (m : Result BlockError T) {t : T} → lift_block m ≡ ok t → m ≡ ok t
unfolding lift_block
lift_block-eq-ok (ok t) h = cc
lift_block-eq-ok (err e) h = cc
lift_block-eq-ok panic h = cc

pub refused-is_empty :
    (b c : Block.Builder) (e : Entry)
    → Block.add b e.0 e.1 ≡ ok (c, false)
    → (is_empty b ≡ false) × (c ≡ b)
unfolding is_empty
refused-is_empty b c e refused =
    let (same, some_row, _) = (add_lem b e.0 e.1 c false refused).1 refl in
    elim (List-cases b.offsets) [
      | inl n ↦ absurd (some_row n)
      | inr (y, ys, n) ↦ (rw n (ground arith), same)
    ]

abbrev pub plain_entry : Bytes × Value → Entry
plain_entry (key, v) = (key, plain_row v)

module _ (d : Deques) (l : Library) where
  abbrev pub after_finish : Builder d → Block → Builder d
  after_finish b blk = record b {
    block_builder = Block.new_builder b.conf.block_size;
    block_metas =
        b.block_metas ++ record { offset = b.current_len; first_key = blk.first_key } ∷ [];
  }

  pub finished :
      (b c : Builder d) (buf : Bytes)
      → finish_block d l b ≡ ok (buf, c)
      → is_empty b.block_builder ≡ false
      → (blk : Block) × (Block.build b.block_builder ≡ ok blk)
        × (Block.encode l blk b.conf.compression ≡ ok buf)
        × (after_finish b blk ≡ c)
  unfolding finish_block
  finished b c buf done e =
      let inner = rw (e, finish_block) at done in
      let (blk, built, more) = >>=-eq-ok (lift_block (Block.build b.block_builder)) _ inner in
      let (out, coded, last) =
        >>=-eq-ok (lift_block (Block.encode l blk b.conf.compression)) _ more in
      let plain : Block.encode l blk b.conf.compression ≡ ok out = lift_block-eq-ok _ coded in
      let there : Block.encode l blk b.conf.compression ≡ ok buf = cc in
      let same : after_finish b blk ≡ c = cc in (blk, lift_block-eq-ok _ built, there, same)

  -- The rows that were added: those of the blocks, of which `front` were taken away, and those of the
  -- block that is not finished. The index has where each block stands.
  pub record Kept (front : List Bytes) (b : Builder d) (rows : List Entry) : Type 0 where
    pub parts : List (List Entry)
    pub last : List Entry
    pub order : all_rows parts ++ last ≡ rows
    pub block : add_all (Block.new_builder b.conf.block_size) last ≡ ok (b.block_builder, true)
    pub len : b.current_len ≡ length (concat (front ++ d.items b.blocks)) % 2 ^ 64
    pub stored : Stored l b.conf 0 b.block_metas (front ++ d.items b.blocks) parts

  module _ (q : IsDeque d) where
    pub new_builder-Kept : (conf : Config) → Kept [] (new_builder d conf) []
    unfolding new_builder concat all_rows add_all
    new_builder-Kept conf = record {
      parts = [];
      last = [];
      order = refl;
      block = refl;
      len = rw q.items-new refl;
      stored = rw q.items-new tt;
    }

    -- The block that is full stands behind the others.
    pub pushed :
        (front : List Bytes) (b : Builder d) (rows : List Entry) (e : Entry) (blk : Block)
        (bb : Block.Builder) (buf : Bytes)
        → Kept front b rows
        → is_empty b.block_builder ≡ false
        → Block.build b.block_builder ≡ ok blk
        → Block.encode l blk b.conf.compression ≡ ok buf
        → Block.add (Block.new_builder b.conf.block_size) e.0 e.1 ≡ ok (bb, true)
        → Kept front
            (record (after_finish b blk) {
              block_builder = bb;
              current_len = (b.current_len + length buf) % 2 ^ 64;
              blocks = d.push_back b.blocks buf;
            })
            (rows ++ e ∷ [])
    unfolding add_all
    pushed front b rows e blk bb buf k filled built coded one =
        let before = front ++ d.items b.blocks in
        let items : front ++ d.items (d.push_back b.blocks buf) ≡ before ++ buf ∷ [] =
          rw (q.items-push_back buf b.blocks)
            (sym (append_assoc front (d.items b.blocks) (buf ∷ []))) in
        let size = length-append (concat before) buf in
        let sum : (b.current_len + length buf) % 2 ^ 64 ≡ length (concat before ++ buf) % 2 ^ 64 =
          omega (arith, k.len, size) in
        let has : IsBlockOf l b.conf buf k.last = record {
          builder = b.block_builder;
          blk = blk;
          rows = k.block;
          some_row = filled;
          built = built;
          encoded = coded;
        } in
        let all =
          Stored-snoc l b.conf 0 b.block_metas before k.parts
            (record { offset = b.current_len; first_key = blk.first_key }) buf k.last k.stored
            (k.len ∙ ap (λ n. n % 2 ^ 64) (omega arith)) has in
        record {
          parts = k.parts ++ k.last ∷ [];
          last = e ∷ [];
          order = ap (λ t. t ++ e ∷ []) (all_rows-snoc k.parts k.last ∙ k.order);
          block = rw one refl;
          len =
              sum
              ∙ ap (λ t. length t % 2 ^ 64) (sym (concat-snoc before buf))
              ∙ ap (λ t. length (concat t) % 2 ^ 64) (sym items);
          stored =
              subst
                (λ t. Stored l b.conf 0 (after_finish b blk).block_metas t (k.parts ++ k.last ∷ []))
                (sym items) all;
        }
