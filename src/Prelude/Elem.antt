-- ===== src/Prelude/Elem.antt =====
-- Membership and distinctness by recursion, which the tactics read case by case.
use Prim.Native.Nat.{ℕ, zero, suc}
use mathlib.Core.Path.{◌≡◌, refl, ◌∙◌, ap}
use mathlib.Core.Bool.{Bool, true}
use mathlib.Core.Logic.{◌⊎◌, inl, inr, ◌↔◌}
use mathlib.Core.List.{List, [], ◌∷◌, ◌++◌, map}
use native.Mathlib.Omega.{arith}
use tenir.Prelude.Tests.{Key, ◌==◌}
use tenir.Prelude.Lists.{any, keep_if, take, drop}

-- `a` stands in the list.
abbrev pub Elem : {A : Type 0} → A → List A → Type 0
Elem a [] = ⊥
Elem a (x ∷ xs) = (a ≡ x) ⊎ Elem a xs

abbrev pub Distinct : {A : Type 0} → List A → Type 0
Distinct [] = Unit
Distinct (x ∷ xs) = (¬ Elem x xs) × Distinct xs

module _ {A : Type 0} where
  pub Elem-append : (a : A) (xs ys : List A) → Elem a (xs ++ ys) ↔ Elem a xs ⊎ Elem a ys
  Elem-append a [] ys = ((λ h. inr h), (λ h. elim h [ inl e ↦ absurd e | inr e ↦ e ]))
  Elem-append a (x ∷ xs) ys =
      ((λ h. ground (arith, Elem-append a xs ys)), (λ h. ground (arith, Elem-append a xs ys)))

  pub Distinct-snoc : (a : A) (xs : List A) → Distinct xs → ¬ Elem a xs → Distinct (xs ++ (a ∷ []))
  Distinct-snoc a [] d h = ((λ e. e), tt)
  Distinct-snoc a (x ∷ xs) d h = (
    (λ e. ground (arith, Elem-append x xs (a ∷ []), d.0, h)),
    Distinct-snoc a xs d.1 (λ e. h (inr e)),
  )

  pub Elem-keep_if :
      (p : A → Bool) (a : A) (xs : List A) → Elem a (keep_if p xs) ↔ Elem a xs × (p a ≡ true)
  Elem-keep_if p a [] = ((λ h. absurd h), (λ h. absurd (h.0)))
  Elem-keep_if p a (x ∷ xs) =
      ((λ h. ground (arith, Elem-keep_if p a xs)), (λ h. ground (arith, Elem-keep_if p a xs)))

  pub Elem-map :
      {B : Type 0} (f : A → B) (b : B) (xs : List A)
      → Elem b (map f xs) ↔ ((a : A) × Elem a xs × (b ≡ f a))
  Elem-map f b [] = ((λ h. absurd h), (λ h. absurd (h.1)))
  Elem-map f b (x ∷ xs) = (
    (λ h. elim h [
      | inl e ↦ (x, inl refl, e)
      | inr e ↦ let (a, at, eq) = (Elem-map f b xs).0 e in (a, inr at, eq)
    ]),
    (λ h. elim h.1 [
      | inl eq ↦ inl (h.2 ∙ ap f eq)
      | inr at ↦ inr ((Elem-map f b xs).1 (h.0, at, h.2))
    ]),
  )

  pub Elem-take : (n : ℕ) (a : A) (xs : List A) → Elem a (take n xs) → Elem a xs
  Elem-take zero a xs h = absurd h
  Elem-take (suc n) a [] h = h
  Elem-take (suc n) a (x ∷ xs) (inl h) = inl h
  Elem-take (suc n) a (x ∷ xs) (inr h) = inr (Elem-take n a xs h)

  pub Elem-drop : (n : ℕ) (a : A) (xs : List A) → Elem a (drop n xs) → Elem a xs
  Elem-drop zero a xs h = h
  Elem-drop (suc n) a [] h = h
  Elem-drop (suc n) a (x ∷ xs) h = inr (Elem-drop n a xs h)

module _ {A : Type 0} ⦃e : Key A⦄ where
  pub any-Elem : (a : A) (xs : List A) → (any (λ x. x == a) xs ≡ true) ↔ Elem a xs
  any-Elem a [] = ((λ h. cc), (λ h. absurd h))
  any-Elem a (x ∷ xs) = (
    (λ h. ground (arith, e.same_iff x a, any-Elem a xs)),
    (λ h. ground (arith, e.same_iff x a, any-Elem a xs)),
  )
