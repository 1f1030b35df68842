-- ===== src/Sst/Build/Laid.antt =====
-- Where the blocks of a table stand while it is built (internal/sstable/builder.go).
use mathlib.Core.List.{append_assoc, append-nil}
use slatedb_go.Prelude.{
  ◌+◌, ◌%◌, ◌^◌, ◌<◌, ◌≡◌, refl, sym, ap, subst, ◌∙◌, arith, tt, false, Bool-cases, inl, inr, none,
  some, List, [], ◌∷◌, ◌++◌, All, length, length-append, ◌==◌, List-cases,
}
use slatedb_go.Prelude.Bytes.{Bytes}
use slatedb_go.Prelude.Result.{ok, >>=-eq-ok, widen}
use slatedb_go.Types.{Value}
use slatedb_go.Compress.{Library}
use slatedb_go.Block
use slatedb_go.Block.{plain_row, is_empty, clone_first}
use slatedb_go.Bloom
use slatedb_go.State.{Deques, IsDeque}
use slatedb_go.Sst.Index.{IsMeta}
use slatedb_go.Sst.Build.{
  Config, Builder, concat, new_builder, next_block, lift_block, finish_block, add_to_new, add_row,
  add,
}

pub concat-snoc : (l : List Bytes) (b : Bytes) → concat (l ++ b ∷ []) ≡ concat l ++ b
unfolding concat
concat-snoc [] b = append-nil b
concat-snoc (x ∷ l) b = ap (λ t. x ++ t) (concat-snoc l b) ∙ sym (append_assoc x (concat l) b)

All-snoc : {A : Type 0} (P : A → Type 0) (l : List A) (x : A) → All P l → P x → All P (l ++ x ∷ [])
All-snoc P [] x a p = (p, tt)
All-snoc P (y ∷ l) x (q, a) p = (q, All-snoc P l x a p)

module _ (d : Deques) where
  -- The length counts the bytes `w` that were taken away by NextBlock and those of the blocks that are
  -- there, and the offsets of the index are uint64s.
  pub record IsLaid (w : Bytes) (b : Builder d) : Type 0 where
    pub len : b.current_len ≡ length (w ++ concat (d.items b.blocks)) % 2 ^ 64
    pub metas : All IsMeta b.block_metas

  module _ (q : IsDeque d) where
    pub new_builder-IsLaid : (conf : Config) → IsLaid [] (new_builder d conf)
    unfolding new_builder concat
    new_builder-IsLaid conf = record { len = rw q.items-new refl; metas = tt }

    -- NextBlock takes the first block away.
    pub next_block-IsLaid :
        (w : Bytes) (b c : Builder d) (x : Bytes)
        → IsLaid w b
        → next_block d b ≡ ok (some x, c)
        → IsLaid (w ++ x) c
    unfolding next_block concat
    next_block-IsLaid w b c x v done = elim (List-cases (d.items b.blocks)) [
      | inl e ↦
          let nothing : next_block d b ≡ ok (none, b) = rw (e, next_block) refl in
          let no : none ≡ some x = cc in absurd (cc)
      | inr (y, ys, e) ↦
          let (r, popped, left) = q.pop_front_first b.blocks y ys e in
          let rest : Builder d = record b { blocks = r } in
          let some_left : (length (y ∷ ys) == 0) ≡ false = ground arith in
          let step : next_block d b ≡ ok (some y, rest) =
            rw (e, next_block) (rw (some_left, popped) refl) in
          let first : y ≡ x = cc in
          let after : rest ≡ c = cc in
          let whole : w ++ concat (d.items b.blocks) ≡ (w ++ y) ++ concat (d.items r) =
            rw (e, left) (sym (append_assoc w y (concat ys))) in
          let laid : IsLaid (w ++ y) rest = record {
            len = v.len ∙ ap (λ t. length t % 2 ^ 64) whole;
            metas = v.metas;
          } in
          subst (λ k. IsLaid (w ++ x) k) after (subst (λ k. IsLaid (w ++ k) rest) first laid)
    ]

  module _ (l : Library) where
    -- What a finished block changes.
    pub record Finished (w : Bytes) (b c : Builder d) : Type 0 where
      pub laid : IsLaid w c
      pub blocks : c.blocks ≡ b.blocks
      pub current_len : c.current_len ≡ b.current_len
      pub conf : c.conf ≡ b.conf
      pub first_key : c.first_key ≡ b.first_key

    pub finish_block_lem :
        (w : Bytes) (b c : Builder d) (buf : Bytes)
        → IsLaid w b
        → finish_block d l b ≡ ok (buf, c)
        → Finished w b c
    unfolding finish_block
    finish_block_lem w b c buf v done = elim (Bool-cases (is_empty b.block_builder)) [
      | inl e ↦
          let step : finish_block d l b ≡ ok ([], b) = rw (e, finish_block) refl in
          let same : b ≡ c = cc in
          subst (λ k. Finished w b k) same
            (record { laid = v; blocks = refl; current_len = refl; conf = refl; first_key = refl })
      | inr e ↦
          let inner = rw (e, finish_block) at done in
          let (blk, built, more) = >>=-eq-ok (lift_block (Block.build b.block_builder)) _ inner in
          let (out, coded, last) =
            >>=-eq-ok (lift_block (Block.encode l blk b.conf.compression)) _ more in
          let after : Builder d = record b {
            block_builder = Block.new_builder b.conf.block_size;
            block_metas =
                b.block_metas ++ record { offset = b.current_len; first_key = blk.first_key } ∷ [];
          } in
          let same : after ≡ c = cc in
          let small : b.current_len < 2 ^ 64 = omega (arith, v.len) in
          subst (λ k. Finished w b k) same
            (record {
              laid = record { len = v.len; metas = All-snoc IsMeta b.block_metas _ v.metas small };
              blocks = refl;
              current_len = refl;
              conf = refl;
              first_key = refl;
            })
    ]

    module _ (q : IsDeque d) where
      -- A finished block stands behind the others.
      push-IsLaid :
          (w : Bytes) (b : Builder d) (bb : Block.Builder) (buf : Bytes)
          → IsLaid w b
          → IsLaid w (record b {
            block_builder = bb;
            current_len = (b.current_len + length buf) % 2 ^ 64;
            blocks = d.push_back b.blocks buf;
          })
      push-IsLaid w b bb buf v =
          let before = w ++ concat (d.items b.blocks) in
          let items : w ++ concat (d.items (d.push_back b.blocks buf)) ≡ before ++ buf =
            rw (q.items-push_back buf b.blocks, concat-snoc (d.items b.blocks) buf)
              (sym (append_assoc w (concat (d.items b.blocks)) buf)) in
          let size = length-append before buf in
          record {
            len =
                let sum : (b.current_len + length buf) % 2 ^ 64 ≡ length (before ++ buf) % 2 ^ 64 =
                  omega (arith, v.len, size) in
                sum ∙ ap (λ t. length t % 2 ^ 64) (sym items);
            metas = v.metas;
          }

      add_to_new-IsLaid :
          (w : Bytes) (b c : Builder d) (key : Bytes) (v : Value)
          → IsLaid w b
          → add_to_new d l b key v ≡ ok c
          → IsLaid w c
      unfolding add_to_new
      add_to_new-IsLaid w b c key v laid done =
          let ((buf, f), finished, more) = >>=-eq-ok (finish_block d l b) _ done in
          let ((bb, took), added, last) =
            >>=-eq-ok (widen (Block.add f.block_builder key (plain_row v))) _ more in
          elim (Bool-cases took) [
            | inl e ↦
                let r = finish_block_lem w b f buf laid finished in
                let after : Builder d = record f {
                  block_builder = bb;
                  current_len = (f.current_len + length buf) % 2 ^ 64;
                  blocks = d.push_back f.blocks buf;
                } in
                let plain = rw e at last in
                let same : after ≡ c = cc in
                subst (λ k. IsLaid w k) same (push-IsLaid w f bb buf r.laid)
            | inr e ↦ let plain = rw e at last in absurd (cc)
          ]

      add_row-IsLaid :
          (w : Bytes) (b c : Builder d) (key : Bytes) (v : Value)
          → IsLaid w b
          → add_row d l b key v ≡ ok c
          → IsLaid w c
      unfolding add_row
      add_row-IsLaid w b c key v laid done =
          let ((bb, took), added, last) =
            >>=-eq-ok (widen (Block.add b.block_builder key (plain_row v))) _ done in
          elim (Bool-cases took) [
            | inl e ↦
                let after : Builder d = record b { block_builder = bb } in
                let plain = rw e at last in
                let same : after ≡ c = cc in
                subst (λ k. IsLaid w k) same (record { len = laid.len; metas = laid.metas })
            | inr e ↦
                let plain : add_to_new d l b key v ≡ ok c = rw e at last in
                add_to_new-IsLaid w b c key v laid plain
          ]

      -- Each row that is added without an error keeps the blocks laid: the length that the builder counts is that of
      -- the bytes that were taken away and of the blocks that are there, and the offsets of the index
      -- fit in 64 bits.
      pub add-IsLaid :
          (w : Bytes) (b c : Builder d) (key : Bytes) (v : Value)
          → IsLaid w b
          → add d l b key v ≡ ok c
          → IsLaid w c
      unfolding add
      add-IsLaid w b c key v laid done =
          let counted : Builder d = record b { num_keys = (b.num_keys + 1) % 2 ^ 32 } in
          let (r, added, last) = >>=-eq-ok (add_row d l counted key v) _ done in
          let before : IsLaid w counted = record { len = laid.len; metas = laid.metas } in
          let after = add_row-IsLaid w counted r key v before added in
          let full : Builder d = record r {
            first_key = clone_first r.first_key key;
            filter_builder = Bloom.add r.filter_builder key;
          } in
          let same : full ≡ c = cc in
          subst (λ k. IsLaid w k) same (record { len = after.len; metas = after.metas })
