-- ===== src/Session/Dated.antt =====
-- api/src/api/session.py: the age of a final (`_final_age_s`) and what it prunes.
use tenir.Prelude.{
  ℕ, All, ◌-◌, ◌≤◌, ◌≡◌, inl, inr, refl, sym, ap, ap₂, ◌∙◌, true, false, Option, none, some, List,
  [], ◌∷◌, ltb, leb, if◌then◌else◌, arith, by_test, Bool-cases,
}
use tenir.Session.Drain.{prune, last_position, is_dated, since_first, final_age, arrivals_left}

-- The time of the first push that reaches a position, when one does.
unfoldable pub reached_at : ℕ → List (ℕ × ℕ) → Option ℕ
reached_at end_ms [] = none
reached_at end_ms (a ∷ as') = if leb end_ms a.0 then some a.1 else reached_at end_ms as'

abbrev pub since : Option ℕ → ℕ → ℕ
since none now = 0
since (some at) now = now - at

-- Positions do not go back.
abbrev pub IsTimeline : List (ℕ × ℕ) → Type 0
IsTimeline [] = Unit {0}
IsTimeline (a ∷ []) = Unit {0}
IsTimeline (a ∷ (b ∷ bs)) = (a.0 ≤ b.0) × IsTimeline (b ∷ bs)

prune-is_dated :
    (e e' : ℕ) (a : ℕ × ℕ) (as' : List (ℕ × ℕ))
    → is_dated e' (prune e (a ∷ as')) ≡ is_dated e' (a ∷ as')
prune-is_dated e e' a [] = refl
prune-is_dated e e' a (b ∷ bs) =
    by_test (λ x. is_dated e' x ≡ is_dated e' (a ∷ (b ∷ bs))) (ltb a.0 e)
      (λ before. prune-is_dated e e' b bs) (λ reached. refl)

first-last_position :
    (a : ℕ × ℕ) (as' : List (ℕ × ℕ)) → IsTimeline (a ∷ as') → a.0 ≤ last_position (a ∷ as')
first-last_position a [] t = omega arith
first-last_position a (b ∷ bs) t = omega (arith, t.0, first-last_position b bs t.1)

unreached :
    (e : ℕ) (as' : List (ℕ × ℕ)) → IsTimeline as' → is_dated e as' ≡ false → reached_at e as' ≡ none
unfolding reached_at
unreached e [] t undated = refl
unreached e (a ∷ []) t undated = rw (undated) refl
unreached e (a ∷ (b ∷ bs)) t undated =
    by_test (λ x. x ≡ none) (leb e a.0)
      (λ reached. absurd (ground (arith, reached, undated, first-last_position a (b ∷ bs) t)))
      (λ before. unreached e (b ∷ bs) t.1 undated)

first_kept :
    (e now : ℕ) (a : ℕ × ℕ) (as' : List (ℕ × ℕ))
    → is_dated e (a ∷ as') ≡ true
    → since_first (prune e (a ∷ as')) now ≡ since (reached_at e (a ∷ as')) now
unfolding reached_at
first_kept e now a [] dated = rw (dated) refl
first_kept e now a (b ∷ bs) dated = elim (Bool-cases (leb e a.0)) [
  | inl reached ↦ rw (reached) (
      by_test (λ x. since_first x now ≡ now - a.1) (ltb a.0 e)
        (λ before. absurd (ground (arith, reached, before))) (λ at. refl))
  | inr before ↦ rw (before) (
      by_test (λ x. since_first x now ≡ since (reached_at e (b ∷ bs)) now) (ltb a.0 e)
        (λ b'. first_kept e now b bs dated) (λ at. absurd (ground (arith, before, at))))
]

final_age_exact :
    (e now : ℕ) (as' : List (ℕ × ℕ))
    → IsTimeline as'
    → final_age e as' now ≡ since (reached_at e as') now
unfolding final_age reached_at
final_age_exact e now [] t = refl
final_age_exact e now (a ∷ as') t = elim (Bool-cases (is_dated e (a ∷ as'))) [
  | inl dated ↦ rw (dated) (first_kept e now a as' dated)
  | inr undated ↦ rw (undated) (ap (λ o. since o now) (sym (unreached e (a ∷ as') t undated)))
]

prune-prune : (e e' : ℕ) (as' : List (ℕ × ℕ)) → e ≤ e' → prune e' (prune e as') ≡ prune e' as'
prune-prune e e' [] le = refl
prune-prune e e' (a ∷ []) le = refl
prune-prune e e' (a ∷ (b ∷ bs)) le =
    by_test (λ x. prune e' x ≡ prune e' (a ∷ (b ∷ bs))) (ltb a.0 e)
      (λ before.
        by_test (λ x. prune e' (prune e (b ∷ bs)) ≡ x) (ltb a.0 e')
          (λ also. prune-prune e e' (b ∷ bs) le)
          (λ not_yet. absurd (ground (arith, before, not_yet, le))))
      (λ reached. refl)

final_age-arrivals_left :
    (e e' now : ℕ) (as' : List (ℕ × ℕ))
    → e ≤ e'
    → final_age e' (arrivals_left e as') now ≡ final_age e' as' now
unfolding final_age arrivals_left
final_age-arrivals_left e e' now [] le = refl
final_age-arrivals_left e e' now (a ∷ as') le =
    by_test (λ x. final_age e' x now ≡ final_age e' (a ∷ as') now) (is_dated e (a ∷ as'))
      (λ dated.
        pruned (prune e (a ∷ as')) (a ∷ as') (prune-is_dated e e' a as')
          (prune-prune e e' (a ∷ as') le))
      (λ undated. refl)
  where
    pruned :
        (ys xs : List (ℕ × ℕ))
        → is_dated e' ys ≡ is_dated e' xs
        → prune e' ys ≡ prune e' xs
        → final_age e' ys now ≡ final_age e' xs now
    pruned ys xs h k = ap₂ (λ b zs. if b then since_first zs now else 0) h k

-- What finals with those ends leave of the arrivals, one after the other.
unfoldable pub left_by : List ℕ → List (ℕ × ℕ) → List (ℕ × ℕ)
left_by [] as' = as'
left_by (e ∷ es) as' = left_by es (arrivals_left e as')

-- The age of a final is the time since the first push that reached its end, and 0 when none did,
-- whatever earlier finals pruned.
pub final_age-left_by :
    (es : List ℕ) (e now : ℕ) (as' : List (ℕ × ℕ))
    → IsTimeline as'
    → All (λ e'. e' ≤ e) es
    → final_age e (left_by es as') now ≡ since (reached_at e as') now
unfolding left_by
final_age-left_by es e now as' t before = all_pruned es as' before ∙ final_age_exact e now as' t
  where
    all_pruned :
        (es : List ℕ) (xs : List (ℕ × ℕ))
        → All (λ e'. e' ≤ e) es
        → final_age e (left_by es xs) now ≡ final_age e xs now
    all_pruned [] xs before = refl
    all_pruned (e' ∷ es) xs before =
        all_pruned es (arrivals_left e' xs) before.1 ∙ final_age-arrivals_left e' e now xs before.0
