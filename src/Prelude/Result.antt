-- ===== src/Prelude/Result.antt =====
-- Go's ways to end a call: a value, an error value, or a panic (a failed `assert.True`, a read past
-- the end of a slice).
use mathlib.Core.Path.{◌≡◌, refl}
use mathlib.Core.Logic.{◌⊎◌, inl, inr}

pub data Result {ℓ} (E : Type 0) (T : Type ℓ) : Type ℓ where
  ok : T → Result E T
  err : E → Result E T
  panic : Result E T

-- The fuel or the schedule that a loop of the model was given has run out.
pub data Stuck : Type 0 where
  out_of_fuel : Stuck

-- A call that returns no error value, under any type of errors.
abbrev pub widen {ℓ} : {E : Type 0} {T : Type ℓ} → Result ⊥ T → Result E T
widen (ok t) = ok t
widen (err e) = elim e [ ]
widen panic = panic

pub widen-eq-ok {ℓ} :
    {E : Type 0} {T : Type ℓ} (m : Result ⊥ T) {t : T} → widen {E = E} m ≡ ok t → m ≡ ok t
widen-eq-ok (ok t) h = cc
widen-eq-ok (err e) h = elim e [ ]
widen-eq-ok panic h = cc

pub ok_injective {ℓ} :
    {E : Type 0} {T : Type ℓ} {a b : T} → ◌≡◌ {A = Result E T} (ok a) (ok b) → a ≡ b
ok_injective h = cc

module _ {ℓ κ} {E : Type 0} {S : Type ℓ} {T : Type κ} where
  -- The rest of a call, which an error and a panic pass over.
  infixl 5 ◌>>=◌
  abbrev pub ◌>>=◌ : Result E S → (S → Result E T) → Result E T
  ok s >>= next = next s
  err e >>= next = err e
  panic >>= next = panic

  -- A call that returned a value did so at each step.
  pub >>=-eq-ok :
      (call : Result E S) (next : S → Result E T) {t : T}
      → (call >>= next) ≡ ok t
      → (s : S) × (call ≡ ok s) × (next s ≡ ok t)
  >>=-eq-ok panic next done = cc
  >>=-eq-ok (err e) next done = cc
  >>=-eq-ok (ok s) next done = (s, refl, done)

pub Result-cases {ℓ} :
    {E : Type 0} {T : Type ℓ} (call : Result E T)
    → ((t : T) × (call ≡ ok t)) ⊎ ((e : E) × (call ≡ err e)) ⊎ (call ≡ panic)
Result-cases (ok t) = inl (t, refl)
Result-cases (err e) = inr (inl (e, refl))
Result-cases panic = inr (inr refl)
