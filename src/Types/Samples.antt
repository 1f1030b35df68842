-- ===== src/Types/Samples.antt =====
-- The theorems on values, warnings and codecs at concrete cases.
use Prim.Native.String.{String}
use slatedb_go.Prelude.{◌≡◌, refl, true, some, [], ◌∷◌, if◌then◌else◌, tt}
use slatedb_go.Prelude.Result.{ok}
use slatedb_go.Types.{Value, value_from_bytes, to_bytes, to_value, value_from_bytes-to_bytes}
use slatedb_go.Types.Warn.{ErrWarn, IsDistinct, contains, merge, merge_union}

abbrev value : Value
value = record { value = 5 ∷ []; kind = 2 }

value_from_bytes-to_bytes_example : value_from_bytes (to_bytes value) ≡ ok (to_value value)
value_from_bytes-to_bytes_example = value_from_bytes-to_bytes value

abbrev lost : ErrWarn
lost = "lost" ∷ []

merge_union_example :
    IsDistinct (merge lost (some ("late" ∷ "lost" ∷ [])))
    × ((s : String)
        → contains (merge lost (some ("late" ∷ "lost" ∷ []))) s
          ≡ (if contains lost s then true else contains ("late" ∷ "lost" ∷ []) s))
unfolding contains
merge_union_example = merge_union lost ("late" ∷ "lost" ∷ []) (refl, tt)
