-- ===== src/Tests/Registry.antt =====
-- Runs of the start locks of api/src/api/registry.py.
use tenir.Prelude.{◌≡◌, refl, true, some, List, [], ◌∷◌}
use tenir.Prelude.Text.{codes}
use tenir.Prelude.Dict.{lookup, insert, remove}
use tenir.Registry.Locks.{
  Locks, no_locks, arrive, acquire, give_back, Turn, arrives, acquires, leaves, turn, turns,
}
use tenir.Registry.Exclusive.{IsHeld}
use tenir.Registry.Reachable.{turns-IsHeld, no_locks-IsHeld}

program : Unit {0}
unfolding lookup insert remove arrive acquire give_back turn turns
program = tt

-- Two resumes of one recording: the second one waits until the first one has left.
abbrev two_resumes : List Turn
two_resumes =
    arrives (codes "r1")
    ∷ (arrives (codes "r1") ∷ (acquires 0 ∷ (acquires 1 ∷ (leaves 0 ∷ (acquires 0 ∷ [])))))

turns-IsHeld_example : (s' : Locks) × ((turns two_resumes no_locks ≡ some s') × IsHeld s')
turns-IsHeld_example = turns-IsHeld two_resumes no_locks no_locks-IsHeld

second_inside :
    turns two_resumes no_locks
    ≡ some (record {
      start_locks = (codes "r1", (0, 1)) ∷ [];
      starters = record { session_id = codes "r1"; lock = 0; inside = true } ∷ [];
      next_lock = 2;
    })
unfolding program
second_inside = refl

all_gone :
    turns (leaves 0 ∷ []) (record {
      start_locks = (codes "r1", (0, 1)) ∷ [];
      starters = record { session_id = codes "r1"; lock = 0; inside = true } ∷ [];
      next_lock = 2;
    })
    ≡ some (record { start_locks = []; starters = []; next_lock = 2 })
unfolding program
all_gone = refl
