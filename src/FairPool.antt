-- ===== src/FairPool.antt =====
-- api/src/api/screen/meetings.py: `FairPool`, whose waiting jobs take turns by user. Each section
-- under the lock is one event, so any interleaving of the threads is a sequence of events. A job is
-- a number; what it runs, and the future of its caller, stand outside.
pub mod Turns
use tenir.Prelude.{
  ℕ, zero, suc, length, ◌+◌, ◌-◌, ◌≤◌, ◌<◌, ◌≡◌, Bool, true, false, Option, none, some, List, [],
  ◌∷◌, ◌++◌, ltb, list_key, nat_key, if◌then◌else◌,
}
use tenir.Prelude.Dict.{Dict, lookup, insert}
use tenir.Prelude.Text.{Text}

-- `running` are the calls that were handed to the executor and have not ended.
pub record Pool : Type 0 where
  pub busy : ℕ
  pub running : List (Text × ℕ)
  pub queues : Dict Text (List ℕ)

abbrev pub new_pool : Pool
new_pool = record { busy = 0; running = []; queues = [] }

-- `setdefault(user, deque()).append(...)` of `run`
unfoldable pub enqueue : Text → ℕ → Pool → Pool
enqueue user job s = record s {
  queues =
      insert user (elim (lookup user s.queues) [ none ↦ [] | some q ↦ q ] ++ (job ∷ [])) s.queues;
}

-- The queue goes to the back of the line, if it is not empty.
unfoldable pub to_back : Text → List ℕ → Dict Text (List ℕ) → Dict Text (List ℕ)
to_back user [] d = d
to_back user (j ∷ js) d = insert user (j ∷ js) d

-- One turn of the loop of `_next`: the user and the job that it takes from the line, if any. A job
-- whose caller was cancelled is dropped without a thread.
unfoldable pub next : ℕ → Bool → Pool → Pool × Option (Text × ℕ)
next workers cancelled s =
    if ltb s.busy workers
    then elim s.queues [
      | [] ↦ (s, none)
      | e ∷ line ↦ elim e.1 [
        | [] ↦ (s, none)
        | job ∷ queue ↦ (
          record {
            busy = if cancelled then s.busy else s.busy + 1;
            running = if cancelled then s.running else s.running ++ ((e.0, job) ∷ []);
            queues = to_back e.0 queue line;
          },
          some (e.0, job),
        )
      ]
    ]
    else (s, none)

-- The calls without the one at a place.
abbrev pub others : ℕ → List (Text × ℕ) → List (Text × ℕ)
others i [] = []
others zero (c ∷ cs) = cs
others (suc i) (c ∷ cs) = c ∷ others i cs

-- The end of `_call`, and of a submit that the executor refuses, for the call at a place.
unfoldable pub release : ℕ → Pool → Pool
release i s = record s { busy = s.busy - 1; running = others i s.running }

pub data Event : Type 0 where
  arrives : Text → ℕ → Event
  turn : Bool → Event
  ends : ℕ → Event

-- The pool after one event, with what was taken from the line. Only a call that runs can end.
unfoldable pub step : ℕ → Event → Pool → Pool × List (Text × ℕ)
step workers (arrives user job) s = (enqueue user job s, [])
step workers (turn cancelled) s =
    let (s', got) = next workers cancelled s in (s', elim got [ none ↦ [] | some j ↦ j ∷ [] ])
step workers (ends i) s = (if ltb i (length s.running) then release i s else s, [])

unfoldable pub run : ℕ → List Event → Pool → Pool × List (Text × ℕ)
run workers [] s = (s, [])
run workers (e ∷ es) s =
    let (s', got) = step workers e s in let (s'', more) = run workers es s' in (s'', got ++ more)
