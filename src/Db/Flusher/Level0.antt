-- ===== src/Db/Flusher/Level0.antt =====
-- flushImmMemtablesToL0 and FlushMemtableToL0 of slatedb/flush.go and slatedb/db.go.
use mathlib.Core.List.{append_assoc, append-nil}
use slatedb_go.Prelude.{
  ◌⊎◌, Option, zero, ℕ, suc, ◌+◌, ◌%◌, ◌^◌, ◌≡◌, ◌≢◌, refl, sym, ap, ap₂, List-cases, subst, ◌∙◌,
  arith, inl, inr, none, some, List, [], ◌∷◌, ◌++◌, length, length-append,
}
use slatedb_go.Prelude.Result.{Result, ok}
use slatedb_go.Sst.{Ulid, Ulids, TableId, Handle, new_id_compacted}
use slatedb_go.Snapshot.{to_core_state, take_snapshot}
use slatedb_go.Table
use slatedb_go.Table.{Skiplist, Element, ImmutableMemtable, new_memtable, new_immutable_memtable}
use slatedb_go.State.{Deques, IsDeque, DbState, freeze_memtable}
use slatedb_go.State.Oldest.{last_cases}
use slatedb_go.State.Level0.{
  IsCut, IsCut-nil, IsCut-append, oldest_imm_memtable-nil, oldest_imm_memtable-last, move_lem,
}
use slatedb_go.Manifest.{Manifest, ManifestStore, EpochType}
use slatedb_go.Db.{DbError}
use slatedb_go.Db.Flusher.{Flusher, after_write, flush_imm_memtables, flush_memtable_to_l0}
use slatedb_go.Db.Flusher.Retry.{Fair, Written, write_manifest_safely_lem}

-- The id of the last WAL of the newest memtable, or of the last flush if there is none.
abbrev pub newest : {M : Type 0} → List (ImmutableMemtable M) → ℕ → ℕ
newest [] n = n
newest (m ∷ ms) n = m.last_wal_id

newest-snoc :
    {M : Type 0} (ms : List (ImmutableMemtable M)) (m : ImmutableMemtable M) (n : ℕ)
    → newest (ms ++ m ∷ []) n ≡ newest ms m.last_wal_id
newest-snoc [] m n = refl
newest-snoc (x ∷ ms) m n = refl

no_items : {A : Type 0} (xs : List A) → length xs ≡ 0 → xs ≡ []
no_items xs e = elim (List-cases xs) [
  | inl none_left ↦ none_left
  | inr (x, rest, more) ↦ absurd (let some_left = ap length more in omega (arith, e, some_left))
]

snoc-ne-nil : {A : Type 0} (xs : List A) (x : A) → xs ++ x ∷ [] ≢ []
snoc-ne-nil [] x e = cc
snoc-ne-nil (y ∷ xs) x e = cc

-- In each of `n` rounds of the flush the files answer in a fair way, one round after another.
abbrev pub Served :
    {S : Type 0}
    → ManifestStore S
    → (Option Ulid → Type 0)
    → EpochType
    → ℕ
    → List (Ulid × List (S → S))
    → ℕ
    → S
    → Type 0
Served st P kind local [] n s = ⊥
Served st P kind local (r ∷ rounds) zero s = Unit
Served st P kind local (r ∷ rounds) (suc n) s =
    Fair st P kind local (λ t. Served st P kind local rounds n t) s r.1

-- `hs` are the tables of the memtables `ms`, in this order; the oldest is written first. A table has
-- the ULID of its round, and the elements of its memtable.
abbrev pub Made :
    {M S : Type 0}
    → Ulids
    → Skiplist M
    → (TableId → List Element → Result DbError Handle)
    → List (Ulid × List (S → S))
    → List (ImmutableMemtable M)
    → List Handle
    → Type 0
Made u sk write [] ms hs = (ms ≡ []) × (hs ≡ [])
Made {M = M} u sk write (r ∷ rounds) ms hs =
    ((ms ≡ []) × (hs ≡ []))
    ⊎ ((newer : List (ImmutableMemtable M)) × (m : ImmutableMemtable M) × (above : List Handle)
        × (h : Handle) × (ms ≡ newer ++ m ∷ [])
        × (hs ≡ above ++ h ∷ [])
        × (write (new_id_compacted u r.0) (Table.iter sk m.table) ≡ ok h)
        × Made u sk write rounds newer above)

module _ {M S : Type 0} (d : Deques) (sk : Skiplist M) (u : Ulids) (st : ManifestStore S)
    (P : Option Ulid → Type 0) (write : TableId → List Element → Result DbError Handle) where
  -- The tables of the memtables are in front of what was in level 0, of which a part behind, of
  -- compacted tables, may be cut off; and the last write of a manifest was that of the state of the
  -- database.
  pub record Flushed (rounds : List (Ulid × List (S → S))) (f g : Flusher d M S) : Type 0 where
    pub none_left : d.items g.db.imm_memtables ≡ []
    pub tables : List Handle
    pub made : Made u sk write rounds (d.items f.db.imm_memtables) tables
    pub cut : List Handle
    pub level : tables ++ f.db.core.l0 ≡ g.db.core.l0 ++ cut
    pub is_cut : IsCut d sk u P cut
    pub up_to :
        g.db.core.last_compacted_wal_sst_id
        ≡ newest (d.items f.db.imm_memtables) f.db.core.last_compacted_wal_sst_id
    pub memtable : g.db.memtable ≡ f.db.memtable
    pub wal : g.db.wal ≡ f.db.wal
    pub imm_wals : g.db.imm_wals ≡ f.db.imm_wals
    pub unchanged : d.items f.db.imm_memtables ≡ [] → g ≡ f
    pub stored :
        d.items f.db.imm_memtables ≢ []
        → (s : S) × (id : ℕ) × (m : Manifest) × (st.write s id m ≡ ok g.files)
          × (m.core ≡ to_core_state u (take_snapshot u g.db.core))

  no_memtable :
      (r : Ulid × List (S → S)) (rounds : List (Ulid × List (S → S))) (f : Flusher d M S)
      → d.items f.db.imm_memtables ≡ []
      → Flushed (r ∷ rounds) f f
  no_memtable r rounds f e = record {
    none_left = e;
    tables = [];
    made = inl (e, refl);
    cut = [];
    level = sym (append-nil f.db.core.l0);
    is_cut = IsCut-nil d sk u P;
    up_to = ap (λ l. newest l f.db.core.last_compacted_wal_sst_id) (sym e);
    memtable = refl;
    wal = refl;
    imm_wals = refl;
    unchanged = λ p. refl;
    stored = λ p. absurd (p e);
  }

  -- A part that was cut off before the new tables came in front, and a part cut off afterwards.
  level_joined :
      (above : List Handle) (x : Handle) (l mid out cut1 cut2 : List Handle)
      → x ∷ l ≡ mid ++ cut1
      → above ++ mid ≡ out ++ cut2
      → (above ++ x ∷ []) ++ l ≡ out ++ (cut2 ++ cut1)
  level_joined above x l mid out cut1 cut2 first second =
      append_assoc above (x ∷ []) l
      ∙ ap (λ t. above ++ t) first
      ∙ sym (append_assoc above mid cut1)
      ∙ ap (λ t. t ++ cut1) second
      ∙ append_assoc out cut2 cut1

  -- The oldest memtable, and then the others.
  Flushed-round :
      (K : S → Type 0) (r : Ulid × List (S → S)) (rounds : List (Ulid × List (S → S)))
      (f g h : Flusher d M S) (s : DbState d M) (ms : List (ImmutableMemtable M))
      (m : ImmutableMemtable M) (x : Handle) (p : d.Deque (ImmutableMemtable M))
      → d.items f.db.imm_memtables ≡ ms ++ m ∷ []
      → d.items p ≡ ms
      → write (new_id_compacted u r.0) (Table.iter sk m.table) ≡ ok x
      → s ≡ record f.db {
        imm_memtables = p;
        core = record f.db.core {
          l0 = x ∷ f.db.core.l0;
          last_compacted_wal_sst_id = m.last_wal_id;
        };
      }
      → Written d sk u st P K (record f { db = s }) g
      → Flushed rounds g h
      → Flushed (r ∷ rounds) f h
  Flushed-round K r rounds f g h s ms m x p e left answer moved w rest =
      let kept =
        w.kept
        ∙ ap
            (λ (t : DbState d M). record t {
              core = record t.core {
                l0 = g.db.core.l0;
                compacted = g.db.core.compacted;
                l0_last_compacted = g.db.core.l0_last_compacted;
              };
            })
            moved in
      let items : d.items g.db.imm_memtables ≡ ms =
        ap (λ (t : DbState d M). d.items t.imm_memtables) kept ∙ left in
      let last : g.db.core.last_compacted_wal_sst_id ≡ m.last_wal_id =
        ap (λ (t : DbState d M). t.core.last_compacted_wal_sst_id) kept in
      let first : x ∷ f.db.core.l0 ≡ g.db.core.l0 ++ w.cut =
        sym (ap (λ (t : DbState d M). t.core.l0) moved) ∙ w.level in
      let inner : Made u sk write rounds ms rest.tables =
        subst (λ l. Made u sk write rounds l rest.tables) items rest.made in
      record {
        none_left = rest.none_left;
        tables = rest.tables ++ x ∷ [];
        made = inr (ms, m, rest.tables, x, e, refl, answer, inner);
        cut = rest.cut ++ w.cut;
        level =
            level_joined rest.tables x f.db.core.l0 g.db.core.l0 h.db.core.l0 w.cut rest.cut first
              rest.level;
        is_cut = IsCut-append d sk u P rest.cut w.cut rest.is_cut w.is_cut;
        up_to =
            rest.up_to
            ∙ ap₂ newest items last
            ∙ sym (newest-snoc ms m f.db.core.last_compacted_wal_sst_id)
            ∙ ap (λ l. newest l f.db.core.last_compacted_wal_sst_id) (sym e);
        memtable = rest.memtable ∙ ap (λ (t : DbState d M). t.memtable) kept;
        wal = rest.wal ∙ ap (λ (t : DbState d M). t.wal) kept;
        imm_wals = rest.imm_wals ∙ ap (λ (t : DbState d M). t.imm_wals) kept;
        unchanged = λ q. absurd (snoc-ne-nil ms m (sym e ∙ q));
        stored = λ q. elim (List-cases ms) [
          | inl none_more ↦
              let same : h ≡ g = rest.unchanged (items ∙ none_more) in
              subst
                (λ (k : Flusher d M S).
                  (a : S) × (id : ℕ) × (n : Manifest) × (st.write a id n ≡ ok k.files)
                  × (n.core ≡ to_core_state u (take_snapshot u k.db.core)))
                (sym same)
                (
                  w.written_at,
                  (w.id + 1) % 2 ^ 64,
                  record w.replaced { core = to_core_state u (take_snapshot u g.db.core) },
                  w.written,
                  refl,
                )
          | inr (y, l, more) ↦
              rest.stored (λ z. let no : y ∷ l ≡ [] = sym more ∙ sym items ∙ z in cc)
        ];
      }

  module _ (q : IsDeque d)
      (written : (id : TableId) (l : List Element) → (h : Handle) × (write id l ≡ ok h)) where
    flush_imm_memtables_lem :
        (kind : EpochType) (local n : ℕ) (rounds : List (Ulid × List (S → S))) (f : Flusher d M S)
        → length (d.items f.db.imm_memtables) ≡ n
        → f.manifest.epoch_type ≡ kind
        → f.manifest.local_epoch ≡ local
        → Served st P kind local rounds n f.files
        → (g : Flusher d M S) × (flush_imm_memtables d sk u st write rounds f ≡ ok (g, none))
          × Flushed rounds f g
    unfolding flush_imm_memtables after_write
    flush_imm_memtables_lem kind local n [] f size k c served = elim served [ ]
    flush_imm_memtables_lem kind local zero ((x, others) ∷ rounds) f size k c served =
        let e = no_items (d.items f.db.imm_memtables) size in
        let done : flush_imm_memtables d sk u st write ((x, others) ∷ rounds) f ≡ ok (f, none) =
          rw (oldest_imm_memtable-nil d sk f.db e, flush_imm_memtables) refl in
        (f, done, no_memtable (x, others) rounds f e)
    flush_imm_memtables_lem kind local (suc n) ((x, others) ∷ rounds) f size k c served =
        elim (last_cases (d.items f.db.imm_memtables)) [
          | inl e ↦ absurd (let no : 0 ≡ suc n = sym (ap length e) ∙ size in omega (arith, no))
          | inr (ms, t, e) ↦
              let K : S → Type 0 = λ a. Served st P kind local rounds n a in
              let (table, made) = written (new_id_compacted u x) (Table.iter sk t.table) in
              let (p, moved, left) = move_lem d sk q f.db ms t e table in
              let s : DbState d M = record f.db {
                imm_memtables = p;
                core = record f.db.core {
                  l0 = table ∷ f.db.core.l0;
                  last_compacted_wal_sst_id = t.last_wal_id;
                };
              } in
              let f1 : Flusher d M S = record f { db = s } in
              let fair : Fair st P f.manifest.epoch_type f.manifest.local_epoch K f.files others =
                rw (k, c) served in
              let (g, safe, w) = write_manifest_safely_lem d sk u st P K others f1 fair in
              let items : d.items g.db.imm_memtables ≡ ms =
                ap (λ (t : DbState d M). d.items t.imm_memtables) w.kept ∙ left in
              let short : length (d.items g.db.imm_memtables) ≡ n =
                omega (arith, size, ap length e, length-append ms (t ∷ []), ap length items) in
              let (h2, rest, r) =
                flush_imm_memtables_lem kind local n rounds g short (w.kind ∙ k) (w.epoch ∙ c)
                  w.goes in
              let done : flush_imm_memtables d sk u st write ((x, others) ∷ rounds) f
                  ≡ ok (h2, none) =
                rw (oldest_imm_memtable-last d sk q f.db ms t e, flush_imm_memtables)
                  (rw made (rw moved (rw safe (rw rest refl)))) in
              (
                h2,
                done,
                Flushed-round K (x, others) rounds f g h2 s ms t table p e left made refl w r,
              )
        ]

    -- FlushMemtableToL0 after a flush of the WALs. Every table can be written, and for each frozen
    -- memtable, the new one counted, there is a round in which a manifest of the flusher's epoch is
    -- written, at once or after others were refused. Then it ends without an error: the memtable is
    -- empty, no frozen one is left, and the WALs are as before. The tables written for the memtables
    -- stand in front of what was in level 0, the newest first; only a part behind may be cut off of
    -- this, from a table on at which a last compacted table stops of which `P` holds, as it does of those
    -- of all manifests that were loaded. The last manifest written has this state of the database,
    -- compacted up to the memtable's last WAL.
    pub flush_memtable_to_l0_lem :
        (rounds : List (Ulid × List (S → S))) (f : Flusher d M S) (w : ℕ)
        → f.db.memtable.last_wal_id ≡ some w
        → Served st P f.manifest.epoch_type f.manifest.local_epoch rounds
            (suc (length (d.items f.db.imm_memtables)))
            f.files
        → (g : Flusher d M S) × (flush_memtable_to_l0 d sk u st write rounds f ≡ ok (g, none))
          × (g.db.memtable ≡ new_memtable sk)
          × (d.items g.db.imm_memtables ≡ [])
          × (g.db.wal ≡ f.db.wal)
          × (g.db.imm_wals ≡ f.db.imm_wals)
          × (g.db.core.last_compacted_wal_sst_id ≡ w)
          × ((hs : List Handle) × (cut : List Handle) × Made u sk write rounds
                (record { table = f.db.memtable.table; last_wal_id = w }
                  ∷ d.items f.db.imm_memtables)
                hs
              × (hs ++ f.db.core.l0 ≡ g.db.core.l0 ++ cut)
              × IsCut d sk u P cut)
          × ((s : S) × (id : ℕ) × (n : Manifest) × (st.write s id n ≡ ok g.files)
              × (n.core ≡ to_core_state u (take_snapshot u g.db.core)))
    unfolding flush_memtable_to_l0 freeze_memtable new_immutable_memtable
    flush_memtable_to_l0_lem rounds f w has served =
        let frozen = new_immutable_memtable sk f.db.memtable w in
        let f1 : Flusher d M S = record f { db = freeze_memtable d sk f.db w } in
        let items : d.items f1.db.imm_memtables ≡ frozen ∷ d.items f.db.imm_memtables =
          q.items-push_front frozen f.db.imm_memtables in
        let (g, done, r) =
          flush_imm_memtables_lem f.manifest.epoch_type f.manifest.local_epoch
            (suc (length (d.items f.db.imm_memtables))) rounds f1 (ap length items) refl refl
            served in
        let all : flush_memtable_to_l0 d sk u st write rounds f ≡ ok (g, none) =
          rw (has, flush_memtable_to_l0) done in
        (
          g,
          all,
          r.memtable,
          r.none_left,
          r.wal,
          r.imm_wals,
          r.up_to ∙ ap (λ l. newest l f.db.core.last_compacted_wal_sst_id) items,
          (
            r.tables,
            r.cut,
            subst (λ l. Made u sk write rounds l r.tables) items r.made,
            r.level,
            r.is_cut,
          ),
          r.stored (λ e. let no : frozen ∷ d.items f.db.imm_memtables ≡ [] = sym items ∙ e in cc),
        )
