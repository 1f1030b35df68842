-- ===== src/Db/Flusher/Retry.antt =====
-- writeManifestSafely of slatedb/flush.go, while others write the manifest too.
use slatedb_go.Prelude.{
  ℕ, ◌+◌, ◌%◌, ◌^◌, ◌≡◌, refl, ap, ◌∙◌, ◌⊎◌, inl, inr, Option, none, some, List, [], ◌∷◌, ◌++◌,
}
use mathlib.Core.List.{append_assoc}
use slatedb_go.Prelude.Result.{ok, err, Stuck}
use slatedb_go.Sst.{Ulid, Ulids, Handle}
use slatedb_go.Snapshot.{Snapshot, to_core_state, take_snapshot, clone}
use slatedb_go.Table.{Skiplist}
use slatedb_go.State.{Deques, DbState, refresh_db_state}
use slatedb_go.State.Level0.{IsCut, IsCut-append, refresh_db_state_lem}
use slatedb_go.Manifest.{Manifest, already_exists, ManifestStore, EpochType, epoch_of}
use slatedb_go.Manifest.Steps.{refresh-latest, update-refused, update-written}
use slatedb_go.Db.Flusher.{
  Flusher, is_already_exists, after_refresh, load_manifest, write_manifest, write_manifest_safely,
}

module _ {S : Type 0} (st : ManifestStore S) (P : Option Ulid → Type 0) (kind : EpochType)
    (local : ℕ) where
  -- What the files answer in the rounds, while others change them between the load of a manifest and
  -- the write of the next one. In each round a manifest of the epoch `local` is loaded, with a last
  -- compacted table of which `P` holds. The write of a state with the same last compacted table is then
  -- accepted, and the files are such that `K` holds; or another client has taken the id, and there are
  -- more rounds.
  abbrev pub Fair : (S → Type 0) → S → List (S → S) → Type 0
  Fair K s [] = ⊥
  Fair K s (e ∷ es) =
      (id : ℕ) × (m : Manifest) × (st.latest s ≡ ok (some (id, m)))
      × (local ≡ epoch_of kind m)
      × P m.core.l0_last_compacted
      × (((core : Snapshot)
            → core.l0_last_compacted ≡ m.core.l0_last_compacted
            → (t : S) × (st.write (e s) ((id + 1) % 2 ^ 64) (record m { core = core }) ≡ ok t)
              × K t)
          ⊎ (((core : Snapshot)
                → st.write (e s) ((id + 1) % 2 ^ 64) (record m { core = core })
                  ≡ err already_exists)
              × Fair K (e s) es))

module _ {M S : Type 0} (d : Deques) (sk : Skiplist M) (u : Ulids) (st : ManifestStore S)
    (P : Option Ulid → Type 0) where
  -- The last write was that of the state of the database, to the id behind that of a manifest which was
  -- the latest when it was loaded. The runs written are those of this manifest; of the level 0 of the
  -- first state a part behind is left off, which starts with a table at which a last compacted one
  -- stops of which `P` holds; in memory only the runs and the last compacted table have changed besides.
  pub record Written (K : S → Type 0) (f g : Flusher d M S) : Type 0 where
    pub id : ℕ
    pub replaced : Manifest
    pub loaded_at : S
    pub latest : st.latest loaded_at ≡ ok (some (id, replaced))
    pub written_at : S
    pub written :
        st.write written_at
          ((id + 1) % 2 ^ 64)
          (record replaced { core = to_core_state u (take_snapshot u g.db.core) })
        ≡ ok g.files
    pub runs : g.db.core.compacted ≡ (take_snapshot u replaced.core).compacted
    pub cut : List Handle
    pub level : f.db.core.l0 ≡ g.db.core.l0 ++ cut
    pub is_cut : IsCut d sk u P cut
    pub kept : g.db ≡ record f.db {
      core = record f.db.core {
        l0 = g.db.core.l0;
        compacted = g.db.core.compacted;
        l0_last_compacted = g.db.core.l0_last_compacted;
      };
    }
    pub kind : g.manifest.epoch_type ≡ f.manifest.epoch_type
    pub epoch : g.manifest.local_epoch ≡ f.manifest.local_epoch
    pub goes : K g.files

  -- What the load of the manifest leaves.
  abbrev loaded : Flusher d M S → ℕ → Manifest → Flusher d M S
  loaded f id m = record f {
    db = refresh_db_state d sk u f.db (take_snapshot u m.core);
    manifest = record f.manifest { stored = record { id = id; manifest = m } };
  }

  load_manifest_lem :
      {E : Type 0} (f : Flusher d M S) (id : ℕ) (m : Manifest)
      → st.latest f.files ≡ ok (some (id, m))
      → f.manifest.local_epoch ≡ epoch_of f.manifest.epoch_type m
      → load_manifest d sk u st {E = E} f ≡ ok (loaded f id m, none)
  unfolding load_manifest after_refresh
  load_manifest_lem f id m now same =
      rw (refresh-latest u st f.files f.manifest m id now same, load_manifest) refl

  accepted_round :
      (K : S → Type 0) (e : S → S) (es : List (S → S)) (f : Flusher d M S) (id : ℕ) (m : Manifest)
      → st.latest f.files ≡ ok (some (id, m))
      → f.manifest.local_epoch ≡ epoch_of f.manifest.epoch_type m
      → P m.core.l0_last_compacted
      → ((core : Snapshot)
          → core.l0_last_compacted ≡ m.core.l0_last_compacted
          → (t : S) × (st.write (e f.files) ((id + 1) % 2 ^ 64) (record m { core = core }) ≡ ok t)
            × K t)
      → (g : Flusher d M S) × (write_manifest_safely d sk u st (e ∷ es) f ≡ ok (g, none))
        × Written K f g
  unfolding write_manifest_safely write_manifest to_core_state take_snapshot clone
  accepted_round K e es f id m now same p accepted =
      let l = loaded f id m in
      let core = to_core_state u (take_snapshot u l.db.core) in
      let (cut, level, is_cut, runs, last, kept) =
        refresh_db_state_lem d sk u P f.db (take_snapshot u m.core) p in
      let (t, answer, goes) = accepted core last in
      let done =
        update-written u st (e f.files) t l.manifest (take_snapshot u l.db.core) answer same in
      let n : Manifest = record m { core = core } in
      let g : Flusher d M S = record {
        db = l.db;
        files = t;
        manifest = record f.manifest { stored = record { id = (id + 1) % 2 ^ 64; manifest = n } };
      } in
      let wrote : write_manifest d sk u st {E = Stuck} (record l { files = e f.files })
          ≡ ok (g, none) =
        rw (done, write_manifest) refl in
      let step : write_manifest_safely d sk u st (e ∷ es) f ≡ ok (g, none) =
        rw (load_manifest_lem f id m now same, write_manifest_safely) (rw wrote refl) in
      (
        g,
        step,
        record {
          id = id;
          replaced = m;
          loaded_at = f.files;
          latest = now;
          written_at = e f.files;
          written = answer;
          runs = runs;
          cut = cut;
          level = level;
          is_cut = is_cut;
          kept = kept;
          kind = refl;
          epoch = refl;
          goes = goes;
        },
      )

  -- The write is refused when another client took the next id.
  refused_round :
      (e : S → S) (es : List (S → S)) (f : Flusher d M S) (id : ℕ) (m : Manifest)
      → st.latest f.files ≡ ok (some (id, m))
      → f.manifest.local_epoch ≡ epoch_of f.manifest.epoch_type m
      → ((core : Snapshot)
          → st.write (e f.files) ((id + 1) % 2 ^ 64) (record m { core = core })
            ≡ err already_exists)
      → write_manifest_safely d sk u st (e ∷ es) f
        ≡ write_manifest_safely d sk u st es (record (loaded f id m) { files = e f.files })
  unfolding write_manifest_safely write_manifest is_already_exists
  refused_round e es f id m now same taken =
      let l = loaded f id m in
      let core = take_snapshot u l.db.core in
      let done =
        update-refused u st (e f.files) l.manifest core already_exists
          (taken (to_core_state u core)) same in
      let l2 : Flusher d M S = record l { files = e f.files } in
      let lost : write_manifest d sk u st {E = Stuck} l2 ≡ ok (l2, some already_exists) =
        rw (done, write_manifest) refl in
      rw (load_manifest_lem f id m now same, write_manifest_safely) (rw lost refl)

  -- A further load before the write changes no claim on what was written.
  Written-loaded :
      (K : S → Type 0) (f g : Flusher d M S) (id : ℕ) (m : Manifest) (s : S)
      → P m.core.l0_last_compacted
      → Written K (record (loaded f id m) { files = s }) g
      → Written K f g
  unfolding take_snapshot
  Written-loaded K f g id m s p w =
      let (cut, level, is_cut, runs, last, kept) =
        refresh_db_state_lem d sk u P f.db (take_snapshot u m.core) p in
      record {
        id = w.id;
        replaced = w.replaced;
        loaded_at = w.loaded_at;
        latest = w.latest;
        written_at = w.written_at;
        written = w.written;
        runs = w.runs;
        cut = w.cut ++ cut;
        level = level ∙ ap (λ t. t ++ cut) w.level ∙ append_assoc g.db.core.l0 w.cut cut;
        is_cut = IsCut-append d sk u P w.cut cut w.is_cut is_cut;
        kept =
            w.kept
            ∙ ap
                (λ (t : DbState d M). record t {
                  core = record t.core {
                    l0 = g.db.core.l0;
                    compacted = g.db.core.compacted;
                    l0_last_compacted = g.db.core.l0_last_compacted;
                  };
                })
                kept;
        kind = w.kind;
        epoch = w.epoch;
        goes = w.goes;
      }

  -- In each round a manifest can be loaded, whose epoch is that of the flusher and of whose last
  -- compacted table `P` holds; the next one is then refused, since another client took its id, and in
  -- some round it is accepted. Then the loop ends without an error. What it writes at last is the state
  -- of the database, to the id behind a manifest that was the latest when it was loaded and has the same
  -- runs. Level 0 is cut off at most behind, from a table on at which a last compacted table stops of
  -- which `P` holds, and nothing else in memory but the runs and the last compacted table changes.
  pub write_manifest_safely_lem :
      (K : S → Type 0) (es : List (S → S)) (f : Flusher d M S)
      → Fair st P f.manifest.epoch_type f.manifest.local_epoch K f.files es
      → (g : Flusher d M S) × (write_manifest_safely d sk u st es f ≡ ok (g, none)) × Written K f g
  write_manifest_safely_lem K [] f fair = elim fair [ ]
  write_manifest_safely_lem K (e ∷ es) f (id, m, now, same, p, inl accepted) =
      accepted_round K e es f id m now same p accepted
  write_manifest_safely_lem K (e ∷ es) f (id, m, now, same, p, inr (taken, fair)) =
      let h : Flusher d M S = record (loaded f id m) { files = e f.files } in
      let (g, done, w) = write_manifest_safely_lem K es h fair in
      (
        g,
        refused_round e es f id m now same taken ∙ done,
        Written-loaded K f g id m (e f.files) p w,
      )
