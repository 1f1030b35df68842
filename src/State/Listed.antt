-- ===== src/State/Listed.antt =====
-- A deque made of a list, to show that what is assumed of package deque can be met.
use slatedb_go.Prelude.{◌≡◌, refl, List, [], ◌∷◌, ◌++◌}
use slatedb_go.Prelude.Result.{Result, ok, panic, ◌>>=◌}
use slatedb_go.State.{Deques, IsDeque}

abbrev last : {A : Type 0} → List A → Result ⊥ A
last [] = panic
last (x ∷ []) = ok x
last (x ∷ y ∷ l) = last (y ∷ l)

abbrev split_last : {A : Type 0} → List A → Result ⊥ (A × List A)
split_last [] = panic
split_last (x ∷ []) = ok (x, [])
split_last (x ∷ y ∷ l) = do (z, r) ← split_last (y ∷ l); ok (z, x ∷ r)

abbrev split_first : {A : Type 0} → List A → Result ⊥ (A × List A)
split_first [] = panic
split_first (x ∷ l) = ok (x, l)

last-append : {A : Type 0} (xs : List A) (x : A) → last (xs ++ x ∷ []) ≡ ok x
last-append [] x = refl
last-append (y ∷ []) x = refl
last-append (y ∷ z ∷ xs) x = last-append (z ∷ xs) x

split_last-append : {A : Type 0} (xs : List A) (x : A) → split_last (xs ++ x ∷ []) ≡ ok (x, xs)
split_last-append [] x = refl
split_last-append (y ∷ []) x = refl
split_last-append (y ∷ z ∷ xs) x = rw (split_last-append (z ∷ xs) x) refl

abbrev pub listed_deques : Deques
listed_deques = record {
  Deque = λ A. List A;
  new = [];
  items = λ l. l;
  push_front = λ x l. x ∷ l;
  push_back = λ l x. l ++ x ∷ [];
  back = λ l. last l;
  pop_back = λ l. split_last l;
  pop_front = λ l. split_first l;
}

pub listed_deques-IsDeque : IsDeque listed_deques
listed_deques-IsDeque = record {
  items-new = refl;
  items-push_front = λ x l. refl;
  items-push_back = λ x l. refl;
  back_last = λ l xs x e. rw e (last-append xs x);
  pop_back_last = λ l xs x e. (xs, rw e (split_last-append xs x), refl);
  pop_front_first = λ l x xs e. (xs, rw e refl, refl);
}
