-- ===== src/State/Copies.antt =====
-- Copies of deques (common.CopyDeque in slatedb/common/common.go).
use slatedb_go.Prelude.{◌≡◌, sym, refl, ◌∙◌, List, [], ◌∷◌, ◌++◌, map}
use mathlib.Core.List.{append_assoc, append-nil}
use slatedb_go.State.{Deques, IsDeque, copy_deque, push_all}

module _ (d : Deques) (q : IsDeque d) where
  items-push_all :
      {A : Type 0} (f : A → A) (x : d.Deque A) (l : List A)
      → d.items (push_all d f x l) ≡ d.items x ++ map f l
  unfolding push_all
  items-push_all f x [] = sym (append-nil (d.items x))
  items-push_all f x (y ∷ l) =
      items-push_all f (d.push_back x (f y)) l
      ∙ rw (q.items-push_back (f y) x) (rw append_assoc refl)

  pub items-copy_deque :
      {A : Type 0} (f : A → A) (x : d.Deque A) → d.items (copy_deque d f x) ≡ map f (d.items x)
  unfolding copy_deque
  items-copy_deque f x = items-push_all f d.new (d.items x) ∙ rw q.items-new refl
