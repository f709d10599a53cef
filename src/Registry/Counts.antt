-- ===== src/Registry/Counts.antt =====
-- api/src/api/registry.py: the counts of tasks when one comes, goes on or leaves.
use tenir.Prelude.{
  ℕ, zero, suc, ◌+◌, ◌≤◌, ◌≡◌, subst, Bool, true, some, List, [], ◌∷◌, ◌++◌, get_elem?,
  if◌then◌else◌, arith, ◌||◌,
}
use tenir.Registry.Locks.{Starter, count, drop_at, enter_at}

abbrev pub one_if : Bool → ℕ
one_if b = if b then 1 else 0

pub count-append :
    (p : Starter → Bool) (ts : List Starter) (t : Starter)
    → count p (ts ++ (t ∷ [])) ≡ count p ts + one_if (p t)
count-append p [] t = omega arith
count-append p (u ∷ us) t = omega (arith, count-append p us t)

pub count-drop_at :
    (p : Starter → Bool) (k : ℕ) (ts : List Starter) (t : Starter)
    → get_elem? ts k ≡ some t
    → count p (drop_at k ts) + one_if (p t) ≡ count p ts
count-drop_at p k [] t h = absurd (cc)
count-drop_at p zero (u ∷ us) t h =
    let same : u ≡ t = cc in
    subst (λ x. count p us + one_if (p x) ≡ one_if (p u) + count p us) same (omega arith)
count-drop_at p (suc k) (u ∷ us) t h = omega (arith, count-drop_at p k us t h)

pub count-enter_at :
    (p : Starter → Bool) (k : ℕ) (ts : List Starter) (t : Starter)
    → get_elem? ts k ≡ some t
    → count p (enter_at k ts) + one_if (p t) ≡ count p ts + one_if (p (record t { inside = true }))
count-enter_at p k [] t h = absurd (cc)
count-enter_at p zero (u ∷ us) t h =
    let same : u ≡ t = cc in
    subst
      (λ x.
        (one_if (p (record u { inside = true })) + count p us) + one_if (p x)
        ≡ (one_if (p u) + count p us) + one_if (p (record x { inside = true })))
      same (omega arith)
count-enter_at p (suc k) (u ∷ us) t h = omega (arith, count-enter_at p k us t h)

-- What p counts is counted by q or by r.
pub count_covered :
    (p q r : Starter → Bool) (ts : List Starter)
    → ((t : Starter) → p t ≡ true → (q t || r t) ≡ true)
    → count p ts ≤ count q ts + count r ts
count_covered p q r [] h = omega arith
count_covered p q r (t ∷ ts) h = ground (arith, h t, count_covered p q r ts h)
