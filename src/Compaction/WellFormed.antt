-- ===== src/Compaction/WellFormed.antt =====
-- The invariant of CompactorState (slatedb/compaction/state.go), and its operations on states that
-- keep it.
use slatedb_go.Prelude.{
  ℕ, ◌≡◌, ◌≢◌, refl, sym, subst, tests, arith, ==-refl, ◌⊎◌, tt, Bool, true, false, none, some,
  List, [], ◌∷◌, All, leb, ◌==◌, if◌then◌else◌, Bool-cases, Option-cases, inl, inr, not, ◌&&◌, ◌||◌,
}
use slatedb_go.Prelude.Result.{ok, err}
use slatedb_go.Sst.{Ulid, Ulids, Handle, compacted_id, or_zero_ulid, new_id_compacted}
use slatedb_go.SortedRun.{SortedRun}
use slatedb_go.Snapshot.{IsMadeOf}
use slatedb_go.Compaction.{
  Compaction, CompactorState, ongoing_compaction, destination_exists, lookup, assign, delete,
  check_destination, one_source_matches, submit_compaction, max_uint32, contains_ulid, contains_run,
  place_run, in_id_order,
}

-- The id of a table of level 0 was made from a ULID.
abbrev pub IsLevel : Ulids → Handle → Type 0
IsLevel u h = (x : Ulid) × (h.id ≡ new_id_compacted u x)

-- A compaction stands under its destination and has sources.
abbrev pub IsEntry : ℕ × Compaction → Type 0
IsEntry p = (p.0 ≡ p.1.destination) × (p.1.sources ≢ [])

pub record WellFormed (u : Ulids) (s : CompactorState) : Type 0 where
  pub made : IsMadeOf u s.db_state
  pub level : All (IsLevel u) s.db_state.l0
  pub ordered : in_id_order max_uint32 s.db_state.compacted ≡ true
  pub entries : All IsEntry s.compactions

-- The tables of level 0 whose ULIDs are not in `gone`.
unfoldable pub remaining_l0 : Ulids → List Ulid → List Handle → List Handle
remaining_l0 u gone [] = []
remaining_l0 u gone (h ∷ l) =
    let rest = remaining_l0 u gone l in
    if contains_ulid gone (or_zero_ulid (compacted_id u h.id)) then rest else h ∷ rest

-- A property of all elements of two lists holds of those of the list that a test chooses.
All-if {ℓ} :
    {A : Type ℓ} (P : A → Type 0) (c : Bool) (xs ys : List A)
    → All P xs
    → All P ys
    → All P (if c then xs else ys)
All-if P true xs ys m n = m
All-if P false xs ys m n = n

pub All-remaining_l0 :
    (u : Ulids) (P : Handle → Type 0) (gone : List Ulid) (l : List Handle)
    → All P l
    → All P (remaining_l0 u gone l)
unfolding remaining_l0
All-remaining_l0 u P gone [] m = m
All-remaining_l0 u P gone (h ∷ l) m =
    let rest = All-remaining_l0 u P gone l m.1 in
    All-if _ (contains_ulid gone (or_zero_ulid (compacted_id u h.id))) _ _ rest (m.0, rest)

pub All-place_run :
    (P : SortedRun → Type 0) (out : SortedRun) (gone : List ℕ) (b : Bool) (l : List SortedRun)
    → P out
    → All P l
    → All P (place_run out gone b l)
unfolding place_run
All-place_run P out gone true [] p m = m
All-place_run P out gone false [] p m = (p, m)
All-place_run P out gone b (r ∷ l) p m =
    let now = not b && leb r.id out.id in
    let rest = All-place_run P out gone (b || now) l p m.1 in
    let kept = All-if _ (contains_run gone r.id) _ _ rest (m.0, rest) in
    All-if _ now _ _ (p, kept) kept

pub All-delete :
    (P : ℕ × Compaction → Type 0) (k : ℕ) (m : List (ℕ × Compaction)) → All P m → All P (delete k m)
unfolding delete
All-delete P k [] m = m
All-delete P k (p ∷ l) m =
    let rest = All-delete P k l m.1 in All-if _ (p.0 == k) _ _ rest (m.0, rest)

pub lookup-entry :
    (P : ℕ × Compaction → Type 0) (k : ℕ) (m : List (ℕ × Compaction)) (c : Compaction)
    → All P m
    → lookup k m ≡ some c
    → P (k, c)
unfolding lookup
lookup-entry P k [] c m e = cc
lookup-entry P k ((j, d) ∷ l) c m e = elim (Bool-cases (j == k)) [
  | inl h ↦ let same : j ≡ k = grind tests in let found : d ≡ c = cc in rw (sym same, sym found) m.0
  | inr h ↦ let e2 : lookup k l ≡ some c = cc in lookup-entry P k l c m.1 e2
]

pub lookup-delete : (k : ℕ) (m : List (ℕ × Compaction)) → lookup k (delete k m) ≡ none
unfolding lookup delete
lookup-delete k [] = refl
lookup-delete k ((j, d) ∷ l) = elim (Bool-cases (j == k)) [
  | inl h ↦ rw h (lookup-delete k l)
  | inr h ↦ rw (h, h) (lookup-delete k l)
]

accepted :
    (s t : CompactorState) (c : Compaction)
    → submit_compaction s c ≡ ok t
    → (lookup c.destination s.compactions ≡ none)
      × (check_destination s.db_state.compacted c ≡ true)
      × (record s { compactions = assign c.destination c s.compactions } ≡ t)
unfolding submit_compaction
accepted s t c done = elim (Option-cases (lookup c.destination s.compactions)) [
  | inr (old, e) ↦
      let refused : submit_compaction s c ≡ err ongoing_compaction =
        rw (e, submit_compaction) refl in
      absurd (cc)
  | inl e ↦ elim (Bool-cases (check_destination s.db_state.compacted c)) [
    | inr k ↦
        let refused : submit_compaction s c ≡ err destination_exists =
          rw (e, submit_compaction) (rw k refl) in
        absurd (cc)
    | inl k ↦
        let r = record s { compactions = assign c.destination c s.compactions } in
        let taken : submit_compaction s c ≡ ok r = rw (e, submit_compaction) (rw k refl) in
        let same : r ≡ t = cc in (e, k, same)
  ]
]

-- A compaction that is accepted keeps the invariant.
pub submit_compaction-WellFormed :
    (u : Ulids) (s t : CompactorState) (c : Compaction)
    → WellFormed u s
    → c.sources ≢ []
    → submit_compaction s c ≡ ok t
    → WellFormed u t
unfolding assign
submit_compaction-WellFormed u s t c w h done =
    subst (λ x. WellFormed u x) (accepted s t c done).2
      record {
        made = w.made;
        level = w.level;
        ordered = w.ordered;
        entries = ((refl, h), All-delete IsEntry c.destination s.compactions w.entries);
      }

all_match :
    (l : List SortedRun) (c : Compaction)
    → one_source_matches c.sources c.destination ≡ true
    → All
        (λ (r : SortedRun).
          (r.id ≢ c.destination) ⊎ (one_source_matches c.sources c.destination ≡ true))
        l
all_match [] c e = tt
all_match (r ∷ l) c e = (inr e, all_match l c e)

check_destination_lem :
    (l : List SortedRun) (c : Compaction)
    → check_destination l c ≡ true
    → All
        (λ (r : SortedRun).
          (r.id ≢ c.destination) ⊎ (one_source_matches c.sources c.destination ≡ true))
        l
unfolding check_destination
check_destination_lem [] c h = tt
check_destination_lem (r ∷ l) c h = elim (Bool-cases (one_source_matches c.sources c.destination)) [
  | inl e ↦ (inr e, all_match l c e)
  | inr e ↦ elim (Bool-cases (r.id == c.destination)) [
    | inl k ↦ absurd (cc)
    | inr k ↦
        let rest : check_destination l c ≡ true = rw k at h in
        (inl (λ same. ground (arith, k, same)), check_destination_lem l c rest)
  ]
]

lookup-delete_other :
    (j k : ℕ) (m : List (ℕ × Compaction)) → j ≢ k → lookup j (delete k m) ≡ lookup j m
unfolding lookup delete
lookup-delete_other j k [] h = refl
lookup-delete_other j k ((i, d) ∷ l) h = elim (Bool-cases (i == k)) [
  | inl e ↦
      let other : (i == j) ≡ false = ground (arith, e, h) in
      rw (e, other) (lookup-delete_other j k l h)
  | inr e ↦ elim (Bool-cases (i == j)) [
    | inl f ↦ rw (e, f) refl
    | inr f ↦ rw (e, f) (lookup-delete_other j k l h)
  ]
]

-- A compaction with sources is accepted only if none waits for its destination, and if each run with the id
-- of the destination is one of its sources. It then stands under its destination, what waits
-- for other destinations and the state of the database stay, and the invariant is kept.
pub submit_compaction_lem :
    (u : Ulids) (s t : CompactorState) (c : Compaction)
    → WellFormed u s
    → c.sources ≢ []
    → submit_compaction s c ≡ ok t
    → WellFormed u t
      × (lookup c.destination s.compactions ≡ none)
      × All
          (λ (r : SortedRun).
            (r.id ≢ c.destination) ⊎ (one_source_matches c.sources c.destination ≡ true))
          s.db_state.compacted
      × (lookup c.destination t.compactions ≡ some c)
      × ((j : ℕ) → j ≢ c.destination → lookup j t.compactions ≡ lookup j s.compactions)
      × (t.db_state ≡ s.db_state)
unfolding lookup assign
submit_compaction_lem u s t c w h done =
    let (free, checked, same) = accepted s t c done in
    let here : (c.destination == c.destination) ≡ true = ==-refl c.destination in
    (
      submit_compaction-WellFormed u s t c w h done,
      free,
      check_destination_lem s.db_state.compacted c checked,
      subst (λ (x : CompactorState). lookup c.destination x.compactions ≡ some c) same
          (rw here refl),
      (λ j other.
          let differs : (c.destination == j) ≡ false = ground (arith, other) in
          subst (λ (x : CompactorState). lookup j x.compactions ≡ lookup j s.compactions) same
            (rw differs (lookup-delete_other j c.destination s.compactions other))),
      subst (λ (x : CompactorState). x.db_state ≡ s.db_state) same refl,
    )
