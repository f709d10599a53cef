-- ===== src/Prelude/Strip.antt =====
-- `str.strip` leaves nothing to strip.
use mathlib.Core.Path.{◌≡◌, refl, ap, ◌∙◌}
use mathlib.Core.Logic.{inl, inr}
use mathlib.Core.Bool.{Bool, false}
use mathlib.Core.List.{[], ◌∷◌}
use native.Mathlib.Omega.{arith}
use Prim.Native.Nat.{ℕ}
use tenir.Prelude.Tests.{Bool-cases}
use tenir.Prelude.Text.{Text, lstrip_if, rstrip_if, strip, is_space}

module _ (p : ℕ → Bool) where
  rstrip_twice : (t : Text) → rstrip_if p (rstrip_if p t) ≡ rstrip_if p t
  unfolding rstrip_if
  rstrip_twice [] = refl
  rstrip_twice (c ∷ cs) = ground (arith, rstrip_twice cs)

  lstrip_rstrip :
      (c : ℕ) (cs : Text) → p c ≡ false → lstrip_if p (rstrip_if p (c ∷ cs)) ≡ rstrip_if p (c ∷ cs)
  unfolding rstrip_if lstrip_if
  lstrip_rstrip c cs h = ground arith

  lstrip_rstrip_lstrip :
      (t : Text) → lstrip_if p (rstrip_if p (lstrip_if p t)) ≡ rstrip_if p (lstrip_if p t)
  unfolding lstrip_if rstrip_if
  lstrip_rstrip_lstrip [] = refl
  lstrip_rstrip_lstrip (c ∷ cs) = elim (Bool-cases (p c)) [
    | inl space ↦ rw (space, lstrip_if) (lstrip_rstrip_lstrip cs)
    | inr other ↦ rw (other, lstrip_if) (lstrip_rstrip c cs other)
  ]

pub strip_twice : (t : Text) → strip (strip t) ≡ strip t
unfolding strip
strip_twice t =
    ap (rstrip_if is_space) (lstrip_rstrip_lstrip is_space t)
    ∙ rstrip_twice is_space (lstrip_if is_space t)
