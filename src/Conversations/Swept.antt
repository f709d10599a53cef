-- ===== src/Conversations/Swept.antt =====
-- api/src/api/persistence/conversations.py: the methods that go through all rows (`finish_stale`,
-- `pending_deliveries`, `requeue_failed_deliveries`) find exactly the rows that they are for.
use tenir.Prelude.{
  ℕ, ◌≡◌, ◌↔◌, ◌⊎◌, refl, ap, sym, ◌∙◌, subst, Bool, true, Option, none, some, List, [], ◌∷◌, map,
  arith, keep_if, if◌then◌else◌, nat_key, list_key, inl, inr, Option-cases,
}
use mathlib.Core.Option
use tenir.Prelude.Dict.{Dict, lookup, keys, lookup-nil, lookup-Elem, Elem-lookup, All-lookup}
use tenir.Prelude.Elem.{Elem, Distinct, Elem-append, Elem-map, Elem-keep_if}
use tenir.Prelude.Sorting.{Elem-sort_by}
use tenir.Prelude.Text.{Text}
use tenir.Conversations.Model.{Conversation, ready, screen, pending}
use tenir.Conversations.Store.{Rows, Store, get_or, rows_of, row, values}
use tenir.Conversations.Sweep.{
  is_live, awaits_delivery, delivery_state, all_rows, swept, finish_stale, oldest,
  pending_deliveries, is_requeued, requeued, requeue_failed_deliveries,
}
use tenir.Conversations.Refine.{row-map_rows}
use tenir.Conversations.Invariant.{IsStore}
use tenir.Conversations.Keys.{IsKeyed, rows_of-Distinct}

all_rows-of_Elem :
    (h k : Text) (c : Conversation) (rows : Rows) (d : Dict Text Rows)
    → Elem (h, rows) d
    → Elem (k, c) rows
    → Elem (h, c) (all_rows d)
unfolding all_rows
all_rows-of_Elem h k c rows [] e x = e
all_rows-of_Elem h k c rows ((j, r) ∷ d) (inl e) x =
    (Elem-append (h, c) (map (λ v. (j, v)) (values r)) (all_rows d)).1 (
      inl (
        (Elem-map (λ v. (j, v)) (h, c) (values r)).1 (
          c,
          (Elem-map (λ y. y.1) c r).1
              ((k, c), subst (λ t. Elem (k, c) t) (ap (λ y. y.1) e) x, refl),
          ap (λ y. (y.0, c)) e,
        )))
all_rows-of_Elem h k c rows ((j, r) ∷ d) (inr e) x =
    (Elem-append (h, c) (map (λ v. (j, v)) (values r)) (all_rows d)).1
      (inr (all_rows-of_Elem h k c rows d e x))

Elem-of_all_rows :
    (h : Text) (c : Conversation) (d : Dict Text Rows)
    → Elem (h, c) (all_rows d)
    → (rows : Rows) × (k : Text) × Elem (h, rows) d × Elem (k, c) rows
unfolding all_rows
Elem-of_all_rows h c [] e = absurd e
Elem-of_all_rows h c ((j, r) ∷ d) e =
    elim ((Elem-append (h, c) (map (λ v. (j, v)) (values r)) (all_rows d)).0 e) [
      | inl first ↦
          let (v, at, eq) = (Elem-map (λ v. (j, v)) (h, c) (values r)).0 first in
          let ((k, w), at', eq') = (Elem-map (λ y. y.1) v r).0 at in
          (
            r,
            k,
            inl (ap (λ y. (y.0, r)) eq),
            subst (λ t. Elem (k, t) r) (sym (ap (λ y. y.1) eq ∙ eq')) at',
          )
      | inr later ↦
          let (rows, k, in_d, in_rows) = Elem-of_all_rows h c d later in
          (rows, k, inr in_d, in_rows)
    ]

module _ (s : Store) (keyed : IsKeyed s) (inv : IsStore s) where
  -- The two loops meet a row exactly if a lookup finds it.
  all_rows_iff :
      (h : Text) (c : Conversation)
      → Elem (h, c) (all_rows s.by_household) ↔ (row h c.id s ≡ some c)
  unfolding row rows_of
  all_rows_iff h c = (
    (λ e.
        let (rows, k, in_d, in_rows) = Elem-of_all_rows h c s.by_household e in
        let at_h = Elem-lookup h rows s.by_household keyed.households_once in_d in
        let once = All-lookup (λ r. Distinct (keys r)) h rows s.by_household keyed.rows_once at_h in
        let there : row h k s ≡ some c = rw at_h (Elem-lookup k c rows once in_rows) in
        subst (λ i. row h i s ≡ some c) (sym (inv.at_row h k c there).its_id) there),
    (λ there. elim (Option-cases (lookup h s.by_household)) [
      | inl absent ↦ absurd (ground (arith, absent, lookup-nil {V = Conversation} c.id))
      | inr (rows, at_h) ↦
          all_rows-of_Elem h c.id c rows s.by_household (lookup-Elem h rows s.by_household at_h)
            (lookup-Elem c.id c rows (rw at_h at there))
    ]),
  )

  -- The rows of one household are those that a lookup there finds.
  pub values_iff :
      (h : Text) (c : Conversation) → Elem c (values (rows_of h s)) ↔ (row h c.id s ≡ some c)
  unfolding row
  values_iff h c = (
    (λ e.
        let (x, at, eq) = (Elem-map (λ y. y.1) c (rows_of h s)).0 e in
        let there : row h x.0 s ≡ some x.1 =
          Elem-lookup x.0 x.1 (rows_of h s) (rows_of-Distinct h s keyed) at in
        subst (λ d. row h d.id s ≡ some d) (sym eq)
          (subst (λ i. row h i s ≡ some x.1) (sym (inv.at_row h x.0 x.1 there).its_id) there)),
    (λ there.
        (Elem-map (λ y. y.1) c (rows_of h s)).1
          ((c.id, c), lookup-Elem c.id c (rows_of h s) there, refl)),
  )

  -- The rows that pass a test, by household and id.
  found_iff :
      (p : Conversation → Bool) (h k : Text)
      → Elem {A = Text × Text}
          (h, k)
          (map (λ r. (r.0, r.1.id)) (keep_if (λ r. p r.1) (all_rows s.by_household)))
        ↔ ((c : Conversation) × (row h k s ≡ some c) × (p c ≡ true))
  found_iff p h k = (
    (λ e.
        let (r, kept, eq) = (Elem-map (λ r. (r.0, r.1.id)) (h, k) _).0 e in
        let (at, is) = (Elem-keep_if (λ r. p r.1) r (all_rows s.by_household)).0 kept in
        let at_row = (all_rows_iff r.0 r.1).0 at in
        (r.1, subst (λ x. row x.0 x.1 s ≡ some r.1) (sym eq) at_row, is)),
    (λ (c, there, is).
        let same = (inv.at_row h k c there).its_id in
        (Elem-map (λ r. (r.0, r.1.id)) (h, k) _).1 (
          (h, c),
          (Elem-keep_if (λ r. p r.1) (h, c) (all_rows s.by_household)).1
              ((all_rows_iff h c).1 (subst (λ i. row h i s ≡ some c) (sym same) there), is),
          ap (λ i. (h, i)) (sym same),
        )),
  )

  -- `finish_stale` reports exactly the rows that were live. Afterwards each of them is ready and has
  -- an end, and every other row is as it was.
  finish_stale_exact :
      (now : ℕ) (h k : Text)
      → (Elem (h, k) (finish_stale now s).1
          ↔ ((c : Conversation) × (row h k s ≡ some c) × (is_live c ≡ true)))
        × (row h k (finish_stale now s).0
            ≡ Option.map
                (λ c.
                  if is_live c
                  then record c { status = ready; ended_at = some (get_or c.ended_at now) }
                  else c)
                (row h k s))
  unfolding finish_stale
  finish_stale_exact now h k = (found_iff is_live h k, row-map_rows h k (swept now) s)

  -- `requeue_failed_deliveries` reports exactly the failed screen meetings whose reason matches; each
  -- of them is pending again afterwards, and every other row is as it was.
  requeue_exact :
      (reasons : List Text) (h k : Text)
      → (Elem (h, k) (requeue_failed_deliveries reasons s).1
          ↔ ((c : Conversation) × (row h k s ≡ some c) × (is_requeued reasons c ≡ true)))
        × (row h k (requeue_failed_deliveries reasons s).0
            ≡ Option.map
                (λ c.
                  if is_requeued reasons c then record c { delivery_state = some pending } else c)
                (row h k s))
  unfolding requeue_failed_deliveries
  requeue_exact reasons h k =
      (found_iff (is_requeued reasons) h k, row-map_rows h k (requeued reasons) s)

  awaits_iff :
      (c : Conversation)
      → (awaits_delivery c ≡ true) ↔ (
          (c.status ≡ ready)
          × (c.source ≡ screen)
          × ((c.delivery_state ≡ none) ⊎ (c.delivery_state ≡ some pending)))
  unfolding delivery_state
  awaits_iff c = ((λ h. ground arith), (λ h. ground arith))

  -- `pending_deliveries` lists exactly the finished screen meetings whose delivery is pending or was
  -- never recorded, each with its org.
  pending_deliveries_exact :
      (h k : Text) (org : Option Text)
      → Elem (h, k, org) (pending_deliveries s) ↔ (
          (c : Conversation) × (row h k s ≡ some c)
          × (c.org_site_key ≡ org)
          × (c.status ≡ ready)
          × (c.source ≡ screen)
          × ((c.delivery_state ≡ none) ⊎ (c.delivery_state ≡ some pending)))
  unfolding pending_deliveries
  pending_deliveries_exact h k org = (
    (λ e.
        let (r, sorted, eq) = (Elem-map (λ r. (r.0, r.1.id, r.1.org_site_key)) (h, k, org) _).0 e in
        let kept = (Elem-sort_by oldest r _).0 sorted in
        let (at, is) =
          (Elem-keep_if (λ r. awaits_delivery r.1) r (all_rows s.by_household)).0 kept in
        let at_row = (all_rows_iff r.0 r.1).0 at in
        let (ended, meeting, state) = (awaits_iff r.1).0 is in
        (
          r.1,
          subst {A = Text × Text} (λ x. row x.0 x.1 s ≡ some r.1) (sym (ap (λ y. (y.0, y.1)) eq))
              at_row,
          sym (ap (λ y. y.2) eq),
          ended,
          meeting,
          state,
        )),
    (λ (c, there, same_org, ended, meeting, state).
        let same = (inv.at_row h k c there).its_id in
        (Elem-map (λ r. (r.0, r.1.id, r.1.org_site_key)) (h, k, org) _).1 (
          (h, c),
          (Elem-sort_by oldest (h, c) _).1 (
              (Elem-keep_if (λ r. awaits_delivery r.1) (h, c) (all_rows s.by_household)).1 (
                (all_rows_iff h c).1 (subst (λ i. row h i s ≡ some c) (sym same) there),
                (awaits_iff c).1 (ended, meeting, state),
              )),
          ground arith,
        )),
  )
