-- ===== src/Registry/Reachable.antt =====
-- api/src/api/registry.py: what holds in every state that is reached.
use tenir.Prelude.{
  ℕ, ◌-◌, ◌≡◌, inl, inr, refl, subst, false, some, List, [], ◌∷◌, get_elem?, ◌==◌, nat_key,
  list_key, nat_beq, nat_beq_iff, list_beq_iff, beq_refl, arith, Bool-cases, Option-cases,
}
use tenir.Prelude.Text.{Text}
use tenir.Prelude.Dict.{Dict, lookup, lookup-insert, lookup-remove, lookup-nil}
use tenir.Registry.Locks.{
  Starter, Locks, no_locks, drop_at, released, arrive, acquire, give_back, Turn, arrives, acquires,
  leaves, turn, turns,
}
use tenir.Registry.Counts.{count-drop_at}
use tenir.Registry.Exclusive.{
  of_id, strays, within, Counted, IsHeld, Counted-same, own_entry, arrive-IsHeld, acquire-IsHeld,
}

-- An id's entry with one holder less counts the tasks without one of them.
Counted-released :
    (k : ℕ) (t : Starter) (l n : ℕ) (s : Locks)
    → get_elem? s.starters k ≡ some t
    → Counted t.session_id (some (l, n)) s.starters
    → Counted t.session_id
        (lookup t.session_id (released t.session_id (l, n) s.start_locks))
        (drop_at k s.starters)
Counted-released k t l n s at_k counted =
    let mine = beq_refl t.session_id in
    let fewer = count-drop_at (of_id t.session_id) k s.starters t at_k in
    elim (Bool-cases (nat_beq n 1)) [
      | inl last ↦
          rw (last, lookup-remove t.session_id t.session_id s.start_locks, mine)
            (ground (arith, counted.0, fewer, mine, (nat_beq_iff n 1).0 last))
      | inr more ↦
          rw (more, lookup-insert t.session_id t.session_id (l, n - 1) s.start_locks, mine)
            (
              ground (arith, counted.0, fewer, mine),
              (
                ground (arith, counted.1.0, more),
                omega
                    (arith, counted.1.1, count-drop_at (strays t.session_id l) k s.starters t at_k),
              ),
            )
    ]

lookup-released :
    (id j : Text) (entry : ℕ × ℕ) (d : Dict Text (ℕ × ℕ))
    → (id == j) ≡ false
    → lookup j (released id entry d) ≡ lookup j d
lookup-released id j (l, n) d apart = elim (Bool-cases (nat_beq n 1)) [
  | inl last ↦ rw (last, lookup-remove id j d, apart) refl
  | inr more ↦ rw (more, lookup-insert id j (l, n - 1) d, apart) refl
]

released-IsHeld :
    (k : ℕ) (t : Starter) (l n : ℕ) (s : Locks)
    → get_elem? s.starters k ≡ some t
    → lookup t.session_id s.start_locks ≡ some (l, n)
    → IsHeld s
    → IsHeld (record s {
      start_locks = released t.session_id (l, n) s.start_locks;
      starters = drop_at k s.starters;
    })
released-IsHeld k t l n s at_k entry held = record {
  counted = λ j. elim (Bool-cases (t.session_id == j)) [
    | inl same ↦
        let id_j : t.session_id ≡ j = (list_beq_iff t.session_id j).0 same in
        subst
          (λ x.
            Counted x (lookup x (released t.session_id (l, n) s.start_locks))
              (drop_at k s.starters))
          id_j
          (Counted-released k t l n s at_k
            (subst (λ o. Counted t.session_id o s.starters) entry (held.counted t.session_id)))
    | inr apart ↦ rw (lookup-released t.session_id j (l, n) s.start_locks apart) (
        Counted-same j (lookup j s.start_locks) s.starters (drop_at k s.starters)
          (ground (arith, count-drop_at (of_id j) k s.starters t at_k, apart))
          (λ x. ground (arith, count-drop_at (strays j x) k s.starters t at_k, apart))
          (held.counted j))
  ];
  single = λ j. omega (arith, held.single j, count-drop_at (within j) k s.starters t at_k);
}

give_back-IsHeld :
    (k : ℕ) (t : Starter) (s : Locks)
    → get_elem? s.starters k ≡ some t
    → IsHeld s
    → (s' : Locks) × ((give_back k t s ≡ some s') × IsHeld s')
unfolding give_back
give_back-IsHeld k t s at_k held =
    let (l, n, (entry, own)) = own_entry k t _ s.starters at_k (held.counted t.session_id) in
    let s' = record s {
      start_locks = released t.session_id (l, n) s.start_locks;
      starters = drop_at k s.starters;
    } in
    (s', (rw (entry, give_back) refl, released-IsHeld k t l n s at_k entry held))

turn-IsHeld : (e : Turn) (s : Locks) → IsHeld s → (s' : Locks) × ((turn e s ≡ some s') × IsHeld s')
unfolding turn
turn-IsHeld (arrives id) s held = (arrive id s, (refl, arrive-IsHeld id s held))
turn-IsHeld (acquires k) s held = elim (Option-cases (get_elem? s.starters k)) [
  | inl out ↦ (s, (rw (out, turn) refl, held))
  | inr (t, at_k) ↦ (acquire k t s, (rw (at_k, turn) refl, acquire-IsHeld k t s at_k held))
]
turn-IsHeld (leaves k) s held = elim (Option-cases (get_elem? s.starters k)) [
  | inl out ↦ (s, (rw (out, turn) refl, held))
  | inr (t, at_k) ↦
      let (s', (left, held')) = give_back-IsHeld k t s at_k held in
      (s', (rw (at_k, turn) left, held'))
]

-- Whatever order the tasks come, get their locks and leave in, no entry is missed, at most one task of
-- an id is inside, and an id has an entry exactly while it has tasks, which all share its lock.
pub turns-IsHeld :
    (es : List Turn) (s : Locks) → IsHeld s → (s' : Locks) × ((turns es s ≡ some s') × IsHeld s')
unfolding turns
turns-IsHeld [] s held = (s, (refl, held))
turns-IsHeld (e ∷ es) s held =
    let (s₁, (first, held₁)) = turn-IsHeld e s held in
    let (s₂, (rest, held₂)) = turns-IsHeld es s₁ held₁ in (s₂, (rw (first, turns) rest, held₂))

pub no_locks-IsHeld : IsHeld no_locks
no_locks-IsHeld = record {
  counted = λ id. rw (lookup-nil {V = ℕ × ℕ} id) refl;
  single = λ id. omega arith;
}
