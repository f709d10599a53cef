-- ===== src/Prelude/Dict.antt =====
-- Python's `dict`, as an association list in insertion order: `d[k] = v` overwrites in place and
-- appends a new key, as the language documents.
use mathlib.Core.Path.{◌≡◌, refl, ap, sym, subst}
use mathlib.Core.Logic.{inl, inr}
use mathlib.Core.List.{List, [], ◌∷◌, ◌++◌, map}
use mathlib.Core.Option.{Option, none, some}
use native.Mathlib.Omega.{arith}
use tenir.Prelude.Tests.{Key, ◌==◌, if◌then◌else◌, Bool-cases}
use tenir.Prelude.Lists.{any, All}
use tenir.Prelude.Elem.{Elem, Distinct, Distinct-snoc, any-Elem}

abbrev pub Dict {ℓ κ} : Type ℓ → Type κ → Type (ℓ ⊔ κ)
Dict K V = List (K × V)

module _ {ℓ κ} {K : Type ℓ} {V : Type κ} ⦃e : Key K⦄ where
  -- `d.get(k)`
  unfoldable pub lookup : K → Dict K V → Option V
  lookup k [] = none
  lookup k ((j, v) ∷ d) = if j == k then some v else lookup k d

  -- `d[k] = v`
  unfoldable pub insert : K → V → Dict K V → Dict K V
  insert k v [] = (k, v) ∷ []
  insert k v ((j, w) ∷ d) = if j == k then (j, v) ∷ d else (j, w) ∷ insert k v d

  -- `d.pop(k, None)`
  unfoldable pub remove : K → Dict K V → Dict K V
  remove k [] = []
  remove k ((j, w) ∷ d) = let rest = remove k d in if j == k then rest else (j, w) ∷ rest

  pub lookup-nil : (k : K) → lookup k [] ≡ none
  unfolding lookup
  lookup-nil k = refl

  pub lookup-insert :
      (k j : K) (v : V) (d : Dict K V)
      → lookup j (insert k v d) ≡ (if k == j then some v else lookup j d)
  unfolding lookup insert
  lookup-insert k j v [] = refl
  lookup-insert k j v ((i, w) ∷ d) =
      ground (arith, e.same_iff k j, e.same_iff i k, e.same_iff i j, lookup-insert k j v d)

  pub lookup-remove :
      (k j : K) (d : Dict K V) → lookup j (remove k d) ≡ (if k == j then none else lookup j d)
  unfolding lookup remove
  lookup-remove k j [] = ground arith
  lookup-remove k j ((i, w) ∷ d) =
      ground (arith, e.same_iff k j, e.same_iff i k, e.same_iff i j, lookup-remove k j d)

pub ruleset dict_laws = (lookup-insert, lookup-remove)

-- The keys of a dictionary that no entry shadows.
module _ {K V : Type 0} ⦃e : Key K⦄ where
  abbrev pub keys : Dict K V → List K
  keys = map (λ x. x.0)

  pub keys-insert :
      (k : K) (v : V) (d : Dict K V)
      → keys (insert k v d) ≡ (if any (λ j. j == k) (keys d) then keys d else keys d ++ (k ∷ []))
  unfolding insert
  keys-insert k v [] = refl
  keys-insert k v ((j, w) ∷ d) = ground (arith, keys-insert k v d)

  pub insert-Distinct :
      (k : K) (v : V) (d : Dict K V) → Distinct (keys d) → Distinct (keys (insert k v d))
  insert-Distinct k v d once = rw keys-insert (elim (Bool-cases (any (λ j. j == k) (keys d))) [
    | inl old ↦ rw old once
    | inr new ↦ rw new (Distinct-snoc k (keys d) once (λ x. ground (arith, any-Elem k (keys d))))
  ])

  Elem-keys-remove : (k j : K) (d : Dict K V) → Elem j (keys (remove k d)) → Elem j (keys d)
  unfolding remove
  Elem-keys-remove k j [] h = h
  Elem-keys-remove k j ((i, w) ∷ d) h = ground (arith, Elem-keys-remove k j d)

  pub remove-Distinct : (k : K) (d : Dict K V) → Distinct (keys d) → Distinct (keys (remove k d))
  unfolding remove
  remove-Distinct k [] once = tt
  remove-Distinct k ((j, w) ∷ d) once = elim (Bool-cases (j == k)) [
    | inl this ↦ rw this (remove-Distinct k d once.1)
    | inr other ↦ rw other ((λ x. once.0 (Elem-keys-remove k j d x)), remove-Distinct k d once.1)
  ]

  pub lookup-Elem : (k : K) (v : V) (d : Dict K V) → lookup k d ≡ some v → Elem (k, v) d
  unfolding lookup
  lookup-Elem k v [] h = absurd (cc)
  lookup-Elem k v ((j, w) ∷ d) h = ground (arith, e.same_iff j k, lookup-Elem k v d)

  Elem-keys : (k : K) (v : V) (d : Dict K V) → Elem (k, v) d → Elem k (keys d)
  Elem-keys k v [] h = h
  Elem-keys k v ((j, w) ∷ d) (inl h) = inl (ap (λ x. x.0) h)
  Elem-keys k v ((j, w) ∷ d) (inr h) = inr (Elem-keys k v d h)

  pub Elem-lookup :
      (k : K) (v : V) (d : Dict K V) → Distinct (keys d) → Elem (k, v) d → lookup k d ≡ some v
  unfolding lookup
  Elem-lookup k v [] once h = absurd h
  Elem-lookup k v ((j, w) ∷ d) once (inl h) = ground (arith, e.same_iff j k)
  Elem-lookup k v ((j, w) ∷ d) once (inr h) = elim (Bool-cases (j == k)) [
    | inl same ↦
        absurd (
          once.0 (subst (λ i. Elem i (keys d)) (sym ((e.same_iff j k).0 same)) (Elem-keys k v d h)))
    | inr other ↦ rw other (Elem-lookup k v d once.1 h)
  ]

  pub All-insert :
      (P : V → Type 0) (k : K) (v : V) (d : Dict K V)
      → P v
      → All (λ x. P x.1) d
      → All (λ x. P x.1) (insert k v d)
  unfolding insert
  All-insert P k v [] pv all = (pv, tt)
  All-insert P k v ((j, w) ∷ d) pv all = elim (Bool-cases (j == k)) [
    | inl this ↦ rw this (pv, all.1)
    | inr other ↦ rw other (all.0, All-insert P k v d pv all.1)
  ]

  pub All-lookup :
      (P : V → Type 0) (k : K) (v : V) (d : Dict K V)
      → All (λ x. P x.1) d
      → lookup k d ≡ some v
      → P v
  unfolding lookup
  All-lookup P k v [] all h = absurd (cc)
  All-lookup P k v ((j, w) ∷ d) all h = elim (Bool-cases (j == k)) [
    | inl this ↦ let same : w ≡ v = ground arith in subst P same all.0
    | inr other ↦ All-lookup P k v d all.1 (rw other at h)
  ]
