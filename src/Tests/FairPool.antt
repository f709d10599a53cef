-- ===== src/Tests/FairPool.antt =====
-- Runs of `FairPool` of api/src/api/screen/meetings.py.
use tenir.Prelude.{◌≡◌, ◌≤◌, refl, true, false, List, [], ◌∷◌, map, take, length, arith}
use tenir.Prelude.Dict.{lookup, insert}
use tenir.Prelude.Text.{codes}
use tenir.FairPool.{Pool, Event, arrives, turn, ends, enqueue, to_back, next, release, step, run}
use tenir.FairPool.Turns.{line, IsPool, run_in_turn, run-IsPool}

program : Unit {0}
unfolding lookup insert enqueue to_back next release step run
program = tt

-- Ana has three jobs waiting, Bo one that came last.
abbrev crowd : Pool
crowd = record {
  busy = 1;
  running = (codes "cy", 0) ∷ [];
  queues = (codes "ana", 1 ∷ 2 ∷ 3 ∷ []) ∷ (codes "bo", 4 ∷ []) ∷ [];
}

abbrev busy_day : List Event
busy_day = turn false ∷ arrives (codes "ana") 5 ∷ turn true ∷ ends 0 ∷ turn true ∷ []

served : (run 2 busy_day crowd).1 ≡ (codes "ana", 1) ∷ (codes "bo", 4) ∷ []
unfolding program
served = refl

served_short : length (run 2 busy_day crowd).1 ≤ length (line crowd)
unfolding program
served_short = omega arith

run_in_turn_example :
    map (λ j. j.0) (run 2 busy_day crowd).1 ≡ take (length (run 2 busy_day crowd).1) (line crowd)
run_in_turn_example = run_in_turn 2 busy_day crowd served_short

crowd-IsPool : IsPool 2 crowd
crowd-IsPool = record {
  once = ((λ e. ground arith), ((λ e. ground arith), tt));
  waiting = ((λ e. cc), ((λ e. cc), tt));
  counted = refl;
  threads = omega arith;
}

run-IsPool_example : IsPool 2 (run 2 busy_day crowd).0
run-IsPool_example = run-IsPool 2 busy_day crowd crowd-IsPool
