-- ===== src/Registry/Exclusive.antt =====
-- api/src/api/registry.py: one task at a time starts a session of an id.
use tenir.Prelude.{
  ℕ, ◌+◌, ◌≤◌, ◌≡◌, inl, inr, refl, ◌∙◌, subst, Bool, ◌&&◌, not, Option, none, some, List, [], ◌∷◌,
  ◌++◌, get_elem?, ◌==◌, nat_key, list_key, nat_beq, nat_beq_iff, list_beq_iff, beq_refl, arith,
  Bool-cases,
}
use tenir.Prelude.Text.{Text}
use tenir.Prelude.Dict.{lookup, lookup-insert}
use tenir.Registry.Locks.{Starter, Locks, count, enter_at, entry_or, new_starter, arrive, acquire}
use tenir.Registry.Counts.{count-append, count-drop_at, count-enter_at, count_covered}

abbrev pub of_id : Text → Starter → Bool
of_id id t = t.session_id == id

-- Tasks of an id with another lock.
abbrev pub strays : Text → ℕ → Starter → Bool
strays id l t = (t.session_id == id) && not (t.lock == l)

abbrev pub within : Text → Starter → Bool
within id t = (t.session_id == id) && t.inside

-- The counts of an id, given its entry: all its tasks are counted and share the lock of the entry.
abbrev pub Counted : Text → Option (ℕ × ℕ) → List Starter → Type 0
Counted id none ts = count (of_id id) ts ≡ 0
Counted id (some (l, n)) ts = (count (of_id id) ts ≡ n) × ((1 ≤ n) × (count (strays id l) ts ≡ 0))

-- At most one task of an id is inside, and its entry is there as long as it has tasks.
pub record IsHeld (s : Locks) : Type 0 where
  pub counted : (id : Text) → Counted id (lookup id s.start_locks) s.starters
  pub single : (id : Text) → count (within id) s.starters ≤ 1

-- Without tasks of an id none has another lock.
strays_none :
    (id : Text) (l : ℕ) (ts : List Starter) → count (of_id id) ts ≡ 0 → count (strays id l) ts ≡ 0
strays_none id l ts h =
    omega
      (arith, h, count_covered (strays id l) (of_id id) (of_id id) ts (λ t e. ground (arith, e)))

-- A task comes, by the entry of its id.
Counted-arrive :
    (id : Text) (fresh : ℕ) (o : Option (ℕ × ℕ)) (ts : List Starter)
    → Counted id o ts
    → Counted id
        (some ((entry_or fresh o).0, (entry_or fresh o).1 + 1))
        (ts ++ (new_starter id (entry_or fresh o).0 ∷ []))
Counted-arrive id fresh none ts counted =
    let t = new_starter id fresh in
    let mine = beq_refl id in
    (
      ground (arith, counted, count-append (of_id id) ts t, mine),
      (
        omega arith,
        ground (arith, strays_none id fresh ts counted, count-append (strays id fresh) ts t, mine),
      ),
    )
Counted-arrive id fresh (some (l, n)) ts counted =
    let t = new_starter id l in
    let mine = beq_refl id in
    (
      ground (arith, counted.0, count-append (of_id id) ts t, mine),
      (omega arith, ground (arith, counted.1.1, count-append (strays id l) ts t, mine)),
    )

-- A change of tasks that no count of an id sees.
pub Counted-same :
    (id : Text) (o : Option (ℕ × ℕ)) (ts us : List Starter)
    → count (of_id id) us ≡ count (of_id id) ts
    → ((l : ℕ) → count (strays id l) us ≡ count (strays id l) ts)
    → Counted id o ts
    → Counted id o us
Counted-same id none ts us e f counted = e ∙ counted
Counted-same id (some (l, n)) ts us e f counted = (e ∙ counted.0, (counted.1.0, f l ∙ counted.1.1))

pub arrive-IsHeld : (id : Text) (s : Locks) → IsHeld s → IsHeld (arrive id s)
unfolding arrive
arrive-IsHeld id s held =
    let e = entry_or s.next_lock (lookup id s.start_locks) in
    let t = new_starter id e.0 in
    record {
      counted = λ j. elim (Bool-cases (id == j)) [
        | inl same ↦
            let id_j : id ≡ j = (list_beq_iff id j).0 same in
            rw (lookup-insert id j (e.0, e.1 + 1) s.start_locks, same)
              (subst (λ x. Counted x (some (e.0, e.1 + 1)) (s.starters ++ (t ∷ []))) id_j
                (Counted-arrive id s.next_lock (lookup id s.start_locks) s.starters
                  (held.counted id)))
        | inr apart ↦
            rw (lookup-insert id j (e.0, e.1 + 1) s.start_locks, apart)
              (Counted-same j (lookup j s.start_locks) s.starters (s.starters ++ (t ∷ []))
                (ground (arith, count-append (of_id j) s.starters t, apart))
                (λ l. ground (arith, count-append (strays j l) s.starters t, apart))
                (held.counted j))
      ];
      single = λ j. ground (arith, count-append (within j) s.starters t, held.single j);
    }

-- A task at a place has the lock of its id's entry, and that entry is there.
pub own_entry :
    (k : ℕ) (t : Starter) (o : Option (ℕ × ℕ)) (ts : List Starter)
    → get_elem? ts k ≡ some t
    → Counted t.session_id o ts
    → (l : ℕ) × (n : ℕ) × ((o ≡ some (l, n)) × (t.lock ≡ l))
own_entry k t none ts at_k counted =
    let mine = beq_refl t.session_id in
    absurd (ground (arith, counted, count-drop_at (of_id t.session_id) k ts t at_k, mine))
own_entry k t (some (l, n)) ts at_k counted =
    let mine = beq_refl t.session_id in
    (
      l,
      n,
      (
        refl,
        ground (
          arith,
          counted.1.1,
          count-drop_at (strays t.session_id l) k ts t at_k,
          mine,
          nat_beq_iff t.lock l,
        ),
      ),
    )

-- Nobody of an id is inside when its lock is free.
nobody_inside :
    (id : Text) (l n : ℕ) (ts : List Starter)
    → Counted id (some (l, n)) ts
    → count (λ u. (u.lock == l) && u.inside) ts ≡ 0
    → count (within id) ts ≡ 0
nobody_inside id l n ts counted free = omega (
  arith,
  counted.1.1,
  free,
  count_covered (within id) (λ u. (u.lock == l) && u.inside) (strays id l) ts
      (λ t e. ground (arith, e)),
)

free_lock :
    (k : ℕ) (t : Starter) (s : Locks)
    → get_elem? s.starters k ≡ some t
    → IsHeld s
    → count (λ u. (u.lock == t.lock) && u.inside) s.starters ≡ 0
    → count (within t.session_id) s.starters ≡ 0
free_lock k t s at_k held free =
    let (l, n, (entry, own)) = own_entry k t _ s.starters at_k (held.counted t.session_id) in
    let counted =
      subst (λ o. Counted t.session_id o s.starters) entry (held.counted t.session_id) in
    nobody_inside t.session_id l n s.starters counted
      (subst (λ x. count (λ u. (u.lock == x) && u.inside) s.starters ≡ 0) own free)

pub acquire-IsHeld :
    (k : ℕ) (t : Starter) (s : Locks)
    → get_elem? s.starters k ≡ some t
    → IsHeld s
    → IsHeld (acquire k t s)
unfolding acquire
acquire-IsHeld k t s at_k held =
    elim (Bool-cases (nat_beq (count (λ u. (u.lock == t.lock) && u.inside) s.starters) 0)) [
      | inr taken ↦ rw (taken) held
      | inl free ↦ rw (free) (record {
        counted = λ j.
            Counted-same j (lookup j s.start_locks) s.starters (enter_at k s.starters)
              (omega (arith, count-enter_at (of_id j) k s.starters t at_k))
              (λ l. omega (arith, count-enter_at (strays j l) k s.starters t at_k))
              (held.counted j);
        single = λ j. elim (Bool-cases (t.session_id == j)) [
          | inl same ↦
              let none_in = free_lock k t s at_k held ((nat_beq_iff _ 0).0 free) in
              let id_j : t.session_id ≡ j = (list_beq_iff t.session_id j).0 same in
              let none_j : count (within j) s.starters ≡ 0 =
                subst (λ x. count (within x) s.starters ≡ 0) id_j none_in in
              ground (arith, none_j, count-enter_at (within j) k s.starters t at_k, same)
          | inr apart ↦
              ground (arith, held.single j, count-enter_at (within j) k s.starters t at_k, apart)
        ];
      })
    ]
