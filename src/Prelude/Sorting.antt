-- ===== src/Prelude/Sorting.antt =====
-- Python's stable sort, by a test `above x y` that says that `x` has to stand strictly above `y`.
use mathlib.Core.Path.{◌≡◌}
use mathlib.Core.Bool.{Bool, true, false}
use mathlib.Core.Logic.{◌⊎◌, inl, inr, ◌↔◌}
use mathlib.Core.List.{List, [], ◌∷◌}
use mathlib.Core.List.{Perm}
use mathlib.Core.List.Perm
use native.Mathlib.Omega.{arith}
use tenir.Prelude.Tests.{if◌then◌else◌, Bool-cases}
use tenir.Prelude.Elem.{Elem}
use tenir.Prelude.Lists.{All}

module _ {A : Type 0} (above : A → A → Bool) where
  unfoldable pub insert_by : A → List A → List A
  insert_by x [] = x ∷ []
  insert_by x (y ∷ ys) = if above y x then y ∷ insert_by x ys else x ∷ y ∷ ys

  unfoldable pub sort_by : List A → List A
  unfolding insert_by
  sort_by [] = []
  sort_by (x ∷ xs) = insert_by x (sort_by xs)

  -- No element has to stand above an earlier one.
  abbrev pub IsSorted : List A → Type 0
  IsSorted [] = Unit
  IsSorted (x ∷ xs) = All (λ y. above y x ≡ false) xs × IsSorted xs

  pub Elem-insert_by : (a x : A) (ys : List A) → Elem a (insert_by x ys) ↔ (a ≡ x) ⊎ Elem a ys
  unfolding insert_by
  Elem-insert_by a x [] = ((λ h. h), (λ h. h))
  Elem-insert_by a x (y ∷ ys) =
      ((λ h. ground (arith, Elem-insert_by a x ys)), (λ h. ground (arith, Elem-insert_by a x ys)))

  pub Elem-sort_by : (a : A) (xs : List A) → Elem a (sort_by xs) ↔ Elem a xs
  unfolding sort_by
  Elem-sort_by a [] = ((λ h. h), (λ h. h))
  Elem-sort_by a (x ∷ xs) = (
    (λ h. ground (arith, Elem-insert_by a x (sort_by xs), Elem-sort_by a xs)),
    (λ h. ground (arith, Elem-insert_by a x (sort_by xs), Elem-sort_by a xs)),
  )

  insert_by-perm : (x : A) (ys : List A) → Perm (insert_by x ys) (x ∷ ys)
  unfolding insert_by
  insert_by-perm x [] = Perm.refl _
  insert_by-perm x (y ∷ ys) = elim (Bool-cases (above y x)) [
    | inl t ↦ rw t (Perm.trans (Perm.cons y (insert_by-perm x ys)) (Perm.swap _ _ _))
    | inr f ↦ rw f (Perm.refl _)
  ]

  -- Sorting loses and adds nothing.
  pub sort_by-perm : (xs : List A) → Perm (sort_by xs) xs
  unfolding sort_by
  sort_by-perm [] = Perm.refl _
  sort_by-perm (x ∷ xs) = Perm.trans (insert_by-perm x (sort_by xs)) (Perm.cons x (sort_by-perm xs))

  module _ (asym : (x y : A) → above x y ≡ true → above y x ≡ false)
      (trans : (x y z : A) → above y x ≡ false → above z y ≡ false → above z x ≡ false) where
    All-below :
        (x y : A) (ys : List A)
        → above y x ≡ false
        → All (λ z. above z y ≡ false) ys
        → All (λ z. above z x ≡ false) ys
    All-below x y [] h all = tt
    All-below x y (z ∷ zs) h all = (trans x y z h all.0, All-below x y zs h all.1)

    All-insert_by : (P : A → Type 0) (x : A) (ys : List A) → P x → All P ys → All P (insert_by x ys)
    unfolding insert_by
    All-insert_by P x [] px all = (px, tt)
    All-insert_by P x (y ∷ ys) px all = elim (Bool-cases (above y x)) [
      | inl t ↦ rw t (all.0, All-insert_by P x ys px all.1)
      | inr f ↦ rw f (px, all)
    ]

    insert_by-IsSorted : (x : A) (ys : List A) → IsSorted ys → IsSorted (insert_by x ys)
    unfolding insert_by
    insert_by-IsSorted x [] s = (tt, tt)
    insert_by-IsSorted x (y ∷ ys) s = elim (Bool-cases (above y x)) [
      | inl t ↦ rw t (
        All-insert_by (λ z. above z y ≡ false) x ys (asym y x t) s.0,
        insert_by-IsSorted x ys s.1,
      )
      | inr f ↦ rw f ((f, All-below x y ys f s.0), s)
    ]

    pub sort_by-IsSorted : (xs : List A) → IsSorted (sort_by xs)
    unfolding sort_by
    sort_by-IsSorted [] = tt
    sort_by-IsSorted (x ∷ xs) = insert_by-IsSorted x (sort_by xs) (sort_by-IsSorted xs)
