-- ===== src/Types/Warn.antt =====
-- internal/types/errors.go: ErrWarn, the warnings that an iterator gathers, formatted already.
use Prim.Native.String.{String}
use text.Mathlib.Text.{◌==◌ as str_eq}
use text.Mathlib.TextEquality.{eq_iff}
use slatedb_go.Prelude.{
  ◌≡◌, refl, inl, inr, Bool, true, false, Bool-cases, arith, Option, none, some, List, [], ◌∷◌,
  ◌++◌, if◌then◌else◌,
}

abbrev pub ErrWarn : Type 0
ErrWarn = List String

-- slices.Contains
unfoldable pub contains : List String → String → Bool
contains [] s = false
contains (w ∷ ws) s = if str_eq w s then true else contains ws s

unfoldable pub add : ErrWarn → String → ErrWarn
add e s = e ++ s ∷ []

-- The method `If`: the receiver as an error, or no error.
unfoldable pub if_warned : ErrWarn → Option ErrWarn
if_warned [] = none
if_warned (w ∷ ws) = some (w ∷ ws)

unfoldable pub empty : ErrWarn → Bool
empty [] = true
empty (w ∷ ws) = false

merge_list : ErrWarn → List String → ErrWarn
unfolding contains
merge_list e [] = e
merge_list e (w ∷ ws) = merge_list (if contains e w then e else e ++ w ∷ []) ws

-- A nil right side changes nothing.
unfoldable pub merge : ErrWarn → Option ErrWarn → ErrWarn
unfolding merge_list
merge e none = e
merge e (some rhs) = merge_list e rhs

contains-append :
    (xs ys : List String) (s : String)
    → contains (xs ++ ys) s ≡ (if contains xs s then true else contains ys s)
unfolding contains
contains-append [] ys s = refl
contains-append (x ∷ xs) ys s = ground (arith, contains-append xs ys s)

contains-merge_list :
    (e ws : ErrWarn) (s : String)
    → contains (merge_list e ws) s ≡ (if contains e s then true else contains ws s)
unfolding contains merge_list
contains-merge_list e [] s = ground arith
contains-merge_list e (w ∷ ws) s = ground (
  arith,
  contains-merge_list e ws s,
  contains-merge_list (e ++ w ∷ []) ws s,
  contains-append e (w ∷ []) s,
  eq_iff w s,
)

-- No warning stands twice.
abbrev pub IsDistinct : ErrWarn → Type 0
IsDistinct [] = Unit
IsDistinct (w ∷ ws) = (contains ws w ≡ false) × IsDistinct ws

IsDistinct-append :
    (e : ErrWarn) (w : String) → contains e w ≡ false → IsDistinct e → IsDistinct (e ++ w ∷ [])
unfolding contains
IsDistinct-append [] w n d = (refl, tt)
IsDistinct-append (x ∷ xs) w n d = (
  ground (arith, contains-append xs (w ∷ []) x, eq_iff x w, eq_iff w x, d.0),
  IsDistinct-append xs w (ground arith) d.1,
)

IsDistinct-merge_list : (e ws : ErrWarn) → IsDistinct e → IsDistinct (merge_list e ws)
unfolding merge_list
IsDistinct-merge_list e [] d = d
IsDistinct-merge_list e (w ∷ ws) d = elim (Bool-cases (contains e w)) [
  | inl old ↦ rw old (IsDistinct-merge_list e ws d)
  | inr new ↦ rw new (IsDistinct-merge_list (e ++ w ∷ []) ws (IsDistinct-append e w new d))
]

-- `Merge` leaves exactly the warnings of both sides, and if the receiver held none twice then
-- neither does the result.
pub merge_union :
    (e rhs : ErrWarn)
    → IsDistinct e
    → IsDistinct (merge e (some rhs))
      × ((s : String)
          → contains (merge e (some rhs)) s ≡ (if contains e s then true else contains rhs s))
unfolding merge
merge_union e rhs d = (IsDistinct-merge_list e rhs d, contains-merge_list e rhs)
