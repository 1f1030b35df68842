-- ===== src/Sst/Build/Added.antt =====
-- Rows that are added to the builder of a table stand behind the others (internal/sstable/builder.go).
use mathlib.Core.List.{append_assoc, append-nil}
use slatedb_go.Prelude.{
  ◌+◌, ◌%◌, ◌^◌, ◌≡◌, sym, ap, subst, ◌∙◌, true, false, Bool-cases, inl, inr, List, [], ◌∷◌, ◌++◌,
  length, map,
}
use slatedb_go.Prelude.Bytes.{Bytes}
use slatedb_go.Prelude.Result.{Result, ok, ◌>>=◌, >>=-eq-ok, widen, widen-eq-ok, ok_injective}
use slatedb_go.Types.{Value}
use slatedb_go.Compress.{Library}
use slatedb_go.Block
use slatedb_go.Block.{Block, BlockError, plain_row, is_empty, clone_first}
use slatedb_go.Block.Layout.{Entry}
use slatedb_go.Bloom
use slatedb_go.State.{Deques, IsDeque}
use slatedb_go.Sst.Build.{PartError, Builder, finish_block, add_to_new, add_row, add}
use slatedb_go.Sst.Index.{SstError}
use slatedb_go.Sst.Build.Stored.{add_all-snoc, all_rows}
use slatedb_go.Sst.Build.Kept.{Kept, plain_entry, refused-is_empty, finished, pushed, after_finish}

module _ (d : Deques) (l : Library) where
  -- Rows that are added in order.
  unfoldable pub add_rows :
      Builder d → List (Bytes × Value) → Result (SstError PartError) (Builder d)
  add_rows b [] = ok b
  add_rows b ((key, v) ∷ rows) = do c ← add d l b key v; add_rows c rows

  module _ (q : IsDeque d) where
    add_to_new-Kept :
        (front : List Bytes) (b c : Builder d) (rows : List Entry) (key : Bytes) (v : Value)
        → Kept d l front b rows
        → is_empty b.block_builder ≡ false
        → add_to_new d l b key v ≡ ok c
        → Kept d l front c (rows ++ (key, plain_row v) ∷ [])
    unfolding add_to_new
    add_to_new-Kept front b c rows key v k filled done =
        let ((buf, f), ended, more) = >>=-eq-ok (finish_block d l b) _ done in
        let (blk, built, coded, same) = finished d l b f buf ended filled in
        let ((bb, took), added, last) =
          >>=-eq-ok (widen (Block.add f.block_builder key (plain_row v))) _ more in
        elim (Bool-cases took) [
          | inl e ↦
              let plain = rw e at last in
              let one : Block.add f.block_builder key (plain_row v) ≡ ok (bb, true) =
                widen-eq-ok _ added ∙ ap (λ t. ok (bb, t)) e in
              let here =
                pushed d l q front b rows (key, plain_row v) blk bb buf k filled built coded
                  (subst
                    (λ (t : Builder d). Block.add t.block_builder key (plain_row v) ≡ ok (bb, true))
                    (sym same) one) in
              let after : Builder d → Builder d = λ t. record t {
                block_builder = bb;
                current_len = (t.current_len + length buf) % 2 ^ 64;
                blocks = d.push_back t.blocks buf;
              } in
              let whole : after (after_finish d l b blk) ≡ c = ap after same ∙ ok_injective plain in
              subst (λ t. Kept d l front t (rows ++ (key, plain_row v) ∷ [])) whole here
          | inr e ↦ let plain = rw e at last in absurd (cc)
        ]

    add_row-Kept :
        (front : List Bytes) (b c : Builder d) (rows : List Entry) (key : Bytes) (v : Value)
        → Kept d l front b rows
        → add_row d l b key v ≡ ok c
        → Kept d l front c (rows ++ (key, plain_row v) ∷ [])
    unfolding add_row
    add_row-Kept front b c rows key v k done =
        let ((bb, took), added, last) =
          >>=-eq-ok (widen (Block.add b.block_builder key (plain_row v))) _ done in
        let plain : Block.add b.block_builder key (plain_row v) ≡ ok (bb, took) =
          widen-eq-ok _ added in
        elim (Bool-cases took) [
          | inl e ↦
              let one : Block.add b.block_builder key (plain_row v) ≡ ok (bb, true) =
                plain ∙ ap (λ t. ok (bb, t)) e in
              let gives = rw e at last in
              let here : Kept d l front (record b { block_builder = bb })
                  (rows ++ (key, plain_row v) ∷ []) =
                record {
                  parts = k.parts;
                  last = k.last ++ (key, plain_row v) ∷ [];
                  order =
                      sym (append_assoc (all_rows k.parts) k.last ((key, plain_row v) ∷ []))
                      ∙ ap (λ t. t ++ (key, plain_row v) ∷ []) k.order;
                  block =
                      add_all-snoc (Block.new_builder b.conf.block_size) b.block_builder bb k.last
                        (key, plain_row v) k.block one;
                  len = k.len;
                  stored = k.stored;
                } in
              subst (λ t. Kept d l front t (rows ++ (key, plain_row v) ∷ [])) (ok_injective gives)
                here
          | inr e ↦
              let refused : Block.add b.block_builder key (plain_row v) ≡ ok (bb, false) =
                plain ∙ ap (λ t. ok (bb, t)) e in
              let (filled, _) = refused-is_empty b.block_builder bb (key, plain_row v) refused in
              add_to_new-Kept front b c rows key v k filled (rw e at last)
        ]

    -- A row that is added without an error stands behind the others.
    pub add-Kept :
        (front : List Bytes) (b c : Builder d) (rows : List Entry) (key : Bytes) (v : Value)
        → Kept d l front b rows
        → add d l b key v ≡ ok c
        → Kept d l front c (rows ++ (key, plain_row v) ∷ [])
    unfolding add
    add-Kept front b c rows key v k done =
        let counted : Builder d = record b { num_keys = (b.num_keys + 1) % 2 ^ 32 } in
        let (r, added, last) = >>=-eq-ok (add_row d l counted key v) _ done in
        let before : Kept d l front counted rows = record {
          parts = k.parts;
          last = k.last;
          order = k.order;
          block = k.block;
          len = k.len;
          stored = k.stored;
        } in
        let after = add_row-Kept front counted r rows key v before added in
        let full : Builder d = record r {
          first_key = clone_first r.first_key key;
          filter_builder = Bloom.add r.filter_builder key;
        } in
        let here : Kept d l front full (rows ++ (key, plain_row v) ∷ []) = record {
          parts = after.parts;
          last = after.last;
          order = after.order;
          block = after.block;
          len = after.len;
          stored = after.stored;
        } in
        subst (λ t. Kept d l front t (rows ++ (key, plain_row v) ∷ [])) (ok_injective last) here

    pub add_rows-Kept :
        (front : List Bytes) (b c : Builder d) (before : List Entry) (rows : List (Bytes × Value))
        → Kept d l front b before
        → add_rows b rows ≡ ok c
        → Kept d l front c (before ++ map plain_entry rows)
    unfolding add_rows
    add_rows-Kept front b c before [] k done =
        subst (λ t. Kept d l front c t) (sym (append-nil before))
          (subst (λ t. Kept d l front t before) (ok_injective done) k)
    add_rows-Kept front b c before ((key, v) ∷ rows) k done =
        let (b1, added, more) = >>=-eq-ok (add d l b key v) _ done in
        let here = add-Kept front b b1 before key v k added in
        subst (λ t. Kept d l front c t)
          (append_assoc before (plain_entry (key, v) ∷ []) (map plain_entry rows))
          (add_rows-Kept front b1 c (before ++ plain_entry (key, v) ∷ []) rows here more)
