-- ===== src/Registry/Locks.antt =====
-- api/src/api/registry.py: `start_lock`, with the tasks that are in it.
use tenir.Prelude.{
  ℕ, zero, suc, ◌+◌, ◌-◌, Bool, true, false, ◌&&◌, Option, none, some, List, [], ◌∷◌, ◌++◌,
  get_elem?, ◌==◌, nat_key, list_key, nat_beq, if◌then◌else◌,
}
use tenir.Prelude.Text.{Text}
use tenir.Prelude.Dict.{Dict, lookup, insert, remove}

-- A task between the count of its holding and the `finally`: its id, the lock object that it found,
-- and whether it holds that lock.
pub record Starter : Type 0 where
  pub session_id : Text
  pub lock : ℕ
  pub inside : Bool

-- `_start_locks`, the tasks in the order in which they came, and the number of the next lock object.
pub record Locks : Type 0 where
  pub start_locks : Dict Text (ℕ × ℕ)
  pub starters : List Starter
  pub next_lock : ℕ

abbrev pub no_locks : Locks
no_locks = record { start_locks = []; starters = []; next_lock = 0 }

abbrev pub count : (Starter → Bool) → List Starter → ℕ
count p [] = 0
count p (t ∷ ts) = (if p t then 1 else 0) + count p ts

abbrev pub drop_at : ℕ → List Starter → List Starter
drop_at k [] = []
drop_at zero (t ∷ ts) = ts
drop_at (suc k) (t ∷ ts) = t ∷ drop_at k ts

abbrev pub enter_at : ℕ → List Starter → List Starter
enter_at k [] = []
enter_at zero (t ∷ ts) = record t { inside = true } ∷ ts
enter_at (suc k) (t ∷ ts) = t ∷ enter_at k ts

-- `_start_locks.get(session_id, (asyncio.Lock(), 0))`
abbrev pub entry_or : ℕ → Option (ℕ × ℕ) → ℕ × ℕ
entry_or fresh none = (fresh, 0)
entry_or fresh (some entry) = entry

abbrev pub new_starter : Text → ℕ → Starter
new_starter id l = record { session_id = id; lock = l; inside = false }

-- The code up to the wait for the lock.
unfoldable pub arrive : Text → Locks → Locks
arrive id s =
    let (l, holders) = entry_or s.next_lock (lookup id s.start_locks) in
    record {
      start_locks = insert id (l, holders + 1) s.start_locks;
      starters = s.starters ++ (new_starter id l ∷ []);
      next_lock = s.next_lock + 1;
    }

-- A lock that no task holds goes to a task that waits for it.
unfoldable pub acquire : ℕ → Starter → Locks → Locks
acquire k t s =
    if nat_beq (count (λ u. (u.lock == t.lock) && u.inside) s.starters) 0
    then record s { starters = enter_at k s.starters }
    else s

-- One holder less.
abbrev pub released : Text → ℕ × ℕ → Dict Text (ℕ × ℕ) → Dict Text (ℕ × ℕ)
released id (l, holders) start_locks =
    if nat_beq holders 1 then remove id start_locks else insert id (l, holders - 1) start_locks

-- The `finally`, also of a task that is cancelled; none is a KeyError.
unfoldable pub give_back : ℕ → Starter → Locks → Option Locks
give_back k t s = elim (lookup t.session_id s.start_locks) [
  | none ↦ none
  | some entry ↦ some (record s {
    start_locks = released t.session_id entry s.start_locks;
    starters = drop_at k s.starters;
  })
]

-- What can happen next: a task comes, the task at a place gets its lock, or leaves.
pub data Turn : Type 0 where
  arrives : Text → Turn
  acquires : ℕ → Turn
  leaves : ℕ → Turn

unfoldable pub turn : Turn → Locks → Option Locks
turn (arrives id) s = some (arrive id s)
turn (acquires k) s = elim (get_elem? s.starters k) [
  | none ↦ some s
  | some t ↦ some (acquire k t s)
]
turn (leaves k) s = elim (get_elem? s.starters k) [ none ↦ some s | some t ↦ give_back k t s ]

unfoldable pub turns : List Turn → Locks → Option Locks
turns [] s = some s
turns (e ∷ es) s = elim (turn e s) [ none ↦ none | some s' ↦ turns es s' ]
