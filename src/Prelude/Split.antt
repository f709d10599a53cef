-- ===== src/Prelude/Split.antt =====
-- `str.split` at a character, and its inverse.
use Prim.Native.Nat.{ℕ}
use mathlib.Core.Path.{◌≡◌, refl, ap, ◌∙◌}
use mathlib.Core.Logic.{◌≢◌}
use mathlib.Core.Bool.{Bool, true, false, ◌||◌}
use mathlib.Core.List.{List, [], ◌∷◌, ◌++◌}
use native.Mathlib.Omega.{arith}
use tenir.Prelude.Tests.{◌==◌, nat_key, beq_refl, if◌then◌else◌}
use tenir.Prelude.Lists.{any}
use tenir.Prelude.Text.{Text}

-- `str.split` at a character
abbrev pub onto_first : ℕ → List Text → List Text
onto_first c [] = (c ∷ []) ∷ []
onto_first c (t ∷ ts) = (c ∷ t) ∷ ts

unfoldable pub split_on : ℕ → Text → List Text
split_on c [] = [] ∷ []
split_on c (d ∷ ds) = let rest = split_on c ds in if d == c then [] ∷ rest else onto_first d rest

abbrev pub has : ℕ → Text → Bool
has c t = any (λ d. d == c) t

pub split_on-plain : (c : ℕ) (t : Text) → has c t ≡ false → split_on c t ≡ t ∷ []
unfolding split_on
split_on-plain c [] h = refl
split_on-plain c (d ∷ ds) h = ground (arith, h, split_on-plain c ds)

pub split_on-first :
    (c : ℕ) (a b : Text) → has c a ≡ false → split_on c (a ++ (c ∷ b)) ≡ a ∷ split_on c b
unfolding split_on
split_on-first c [] b h = rw (beq_refl c) refl
split_on-first c (d ∷ ds) b h =
    let plain : has c ds ≡ false = ground (arith, h) in
    ground (arith, h, split_on-first c ds b plain)

pub split_on-append :
    (c : ℕ) (a b : Text)
    → has c a ≡ false
    → has c b ≡ false
    → split_on c (a ++ (c ∷ b)) ≡ a ∷ (b ∷ [])
unfolding split_on
split_on-append c [] b h k = rw (beq_refl c, split_on-plain c b k) refl
split_on-append c (d ∷ ds) b h k =
    let plain : has c ds ≡ false = ground (arith, h) in
    ground (arith, h, split_on-append c ds b plain k)

-- `c.join(parts)`
abbrev pub join_on : ℕ → List Text → Text
join_on c [] = []
join_on c (t ∷ []) = t
join_on c (t ∷ (u ∷ us)) = t ++ (c ∷ join_on c (u ∷ us))

join_on-step :
    (c d : ℕ) (ts : List Text)
    → ts ≢ []
    → join_on c (if d == c then [] ∷ ts else onto_first d ts) ≡ d ∷ join_on c ts
join_on-step c d [] h = absurd (h refl)
join_on-step c d (t ∷ []) h = ground arith
join_on-step c d (t ∷ (u ∷ us)) h = ground arith

onto-nonempty : (b : Bool) (d : ℕ) (ts : List Text) → (if b then [] ∷ ts else onto_first d ts) ≢ []
onto-nonempty true d ts e = cc
onto-nonempty false d [] e = cc
onto-nonempty false d (t ∷ ts) e = cc

split_on-nonempty : (c : ℕ) (t : Text) → split_on c t ≢ []
unfolding split_on
split_on-nonempty c [] e = cc
split_on-nonempty c (d ∷ ds) e = onto-nonempty (d == c) d (split_on c ds) e

pub join_on-split_on : (c : ℕ) (t : Text) → join_on c (split_on c t) ≡ t
unfolding split_on
join_on-split_on c [] = refl
join_on-split_on c (d ∷ ds) =
    join_on-step c d (split_on c ds) (split_on-nonempty c ds) ∙ ap (◌∷◌ d) (join_on-split_on c ds)

pub has-append : (c : ℕ) (a b : Text) → has c (a ++ b) ≡ has c a || has c b
has-append c [] b = refl
has-append c (d ∷ ds) b = ground (arith, has-append c ds b)
