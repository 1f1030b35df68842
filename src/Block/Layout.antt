-- ===== src/Block/Layout.antt =====
-- What a run of `Add` leaves in the builder: the encodings of the rows, and where each stands.
use mathlib.Core.List.{append_assoc, append-nil}
use native.Mathlib.Nat.{add-zero}
use slatedb_go.Prelude.{
  ℕ, ◌+◌, ◌%◌, ◌^◌, ◌≤◌, ◌<◌, ◌≡◌, ◌≢◌, ◌⊎◌, refl, ap, sym, ◌∙◌, arith, Bool, true, false, Option,
  none, some, List, [], ◌∷◌, ◌++◌, length, length-append,
}
use slatedb_go.Prelude.Bytes.{Bytes}
use slatedb_go.Prelude.Result.{ok}
use slatedb_go.Row
use slatedb_go.Row.{Row}
use slatedb_go.Row.RoundTrip.{length-encode}
use slatedb_go.Block.{
  Builder, new_builder, add, cut_key, bytes_of, clone_first, is_empty, cur_block_size,
}

-- A key with the row that is added under it.
abbrev pub Entry : Type 0
Entry = Bytes × Row

abbrev pub key_of : Entry → Bytes
key_of e = e.0

-- The first key is stored whole, and every other one against it.
abbrev pub cut : Bytes → List Entry → List Row
cut first [] = []
cut first ((k, r) ∷ es) = cut_key first k r ∷ cut first es

abbrev pub rows_of : List Entry → List Row
rows_of [] = []
rows_of ((k, r) ∷ es) = cut_key [] k r ∷ cut k es

abbrev pub first_key_of : List Entry → Option Bytes
first_key_of [] = none
first_key_of ((k, r) ∷ es) = some k

abbrev pub flat : List Row → Bytes
flat [] = []
flat (r ∷ rs) = Row.encode r ++ flat rs

-- The offsets of rows that stand one behind the other from `pos` on.
abbrev pub offsets_from : ℕ → List Row → List ℕ
offsets_from pos [] = []
offsets_from pos (r ∷ rs) = pos % 2 ^ 16 ∷ offsets_from (pos + length (Row.encode r)) rs

-- The builder holds the entries, in the order of their addition.
pub record Holds (b : Builder) (es : List Entry) : Type 0 where
  pub first_key : b.first_key ≡ first_key_of es
  pub rows : b.rows ≡ flat (rows_of es)
  pub offsets : b.offsets ≡ offsets_from 0 (rows_of es)

flat-append : (rs ss : List Row) → flat (rs ++ ss) ≡ flat rs ++ flat ss
flat-append [] ss = refl
flat-append (r ∷ rs) ss =
    rw (flat-append rs ss) (sym (append_assoc (Row.encode r) (flat rs) (flat ss)))

offsets_from-append :
    (pos : ℕ) (rs : List Row) (r : Row)
    → offsets_from pos (rs ++ r ∷ [])
      ≡ offsets_from pos rs ++ (pos + length (flat rs)) % 2 ^ 16 ∷ []
offsets_from-append pos [] r = ap (λ n. n % 2 ^ 16 ∷ []) (sym (add-zero pos))
offsets_from-append pos (s ∷ rs) r =
    ap (λ t. pos % 2 ^ 16 ∷ t)
      (offsets_from-append (pos + length (Row.encode s)) rs r
        ∙ ap (λ n. offsets_from (pos + length (Row.encode s)) rs ++ n % 2 ^ 16 ∷ [])
            (omega (arith, length-append (Row.encode s) (flat rs))))

cut-append :
    (first : Bytes) (es : List Entry) (k : Bytes) (r : Row)
    → cut first (es ++ (k, r) ∷ []) ≡ cut first es ++ cut_key first k r ∷ []
cut-append first [] k r = refl
cut-append first ((j, s) ∷ es) k r = ap (λ t. cut_key first j s ∷ t) (cut-append first es k r)

rows_of-append :
    (es : List Entry) (k : Bytes) (r : Row)
    → rows_of (es ++ (k, r) ∷ []) ≡ rows_of es ++ cut_key (bytes_of (first_key_of es)) k r ∷ []
rows_of-append [] k r = refl
rows_of-append ((j, s) ∷ es) k r = ap (λ t. cut_key [] j s ∷ t) (cut-append j es k r)

first_key_of-append :
    (es : List Entry) (k : Bytes) (r : Row)
    → first_key_of (es ++ (k, r) ∷ []) ≡ clone_first (first_key_of es) k
unfolding clone_first
first_key_of-append [] k r = refl
first_key_of-append ((j, s) ∷ es) k r = refl

pub Holds-new_builder : (size : ℕ) → Holds (new_builder size) []
unfolding new_builder
Holds-new_builder size = record { first_key = refl; rows = refl; offsets = refl }

-- The builder after a row is taken.
abbrev pub added : Builder → Bytes → Row → Builder
added b k r = record b {
  offsets = b.offsets ++ length b.rows % 2 ^ 16 ∷ [];
  rows = b.rows ++ Row.encode (cut_key (bytes_of b.first_key) k r);
  first_key = clone_first b.first_key k;
}

pub add-added :
    (b : Builder) (k : Bytes) (r : Row) (b' : Builder)
    → add b k r ≡ ok (b', true)
    → b' ≡ added b k r
unfolding add
add-added b k r b' e = ground arith

Holds-added :
    (b : Builder) (es : List Entry) (k : Bytes) (r : Row)
    → Holds b es
    → Holds (added b k r) (es ++ (k, r) ∷ [])
Holds-added b es k r h = record {
  first_key = rw (first_key_of-append es k r, h.first_key);
  rows = rw (h.first_key, h.rows, rows_of-append es k r) (simp (flat-append, append-nil));
  offsets =
      rw (h.offsets, h.rows, rows_of-append es k r, offsets_from-append)
        (ap (λ n. offsets_from 0 (rows_of es) ++ n % 2 ^ 16 ∷ []) (omega arith));
}

-- A row that `Add` took stands behind the others.
pub Holds-add :
    (b : Builder) (es : List Entry) (k : Bytes) (r : Row) (b' : Builder)
    → Holds b es
    → add b k r ≡ ok (b', true)
    → Holds b' (es ++ (k, r) ∷ [])
Holds-add b es k r b' h e = rw (add-added b k r b' e) (Holds-added b es k r h)

-- A row that `Add` refused leaves the builder as it was: it would have made a block that holds a
-- row already longer than the block size. A row that it took did not.
pub add_lem :
    (b : Builder) (k : Bytes) (r : Row) (b' : Builder) (taken : Bool)
    → add b k r ≡ ok (b', taken)
    → (k ≢ [])
      × ((taken ≡ false)
          → (b' ≡ b) × (b.offsets ≢ []) × (b.block_size < cur_block_size (added b k r)))
      × ((taken ≡ true)
          → (b' ≡ added b k r) × ((b.offsets ≡ []) ⊎ (cur_block_size (added b k r) ≤ b.block_size)))
unfolding add cur_block_size is_empty
add_lem b k r b' taken e = ground (
  arith,
  length-append b.offsets (length b.rows % 2 ^ 16 ∷ []),
  length-append b.rows (Row.encode (cut_key (bytes_of b.first_key) k r)),
  length-encode (cut_key (bytes_of b.first_key) k r),
)
