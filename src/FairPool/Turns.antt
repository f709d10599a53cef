-- ===== src/FairPool/Turns.antt =====
-- api/src/api/screen/meetings.py: in which order the users of a `FairPool` are served.
use tenir.Prelude.{
  ℕ, zero, suc, ◌+◌, ◌<◌, by_test, length-append, true, false, ◌≤◌, ◌≡◌, refl, sym, ap, ap₂, ◌∙◌,
  inl, inr, Bool, List, [], ◌∷◌, ◌++◌, map, length, take, any, ltb, arith, if◌then◌else◌, list_key,
  nat_key, ◌==◌, append_assoc, append-nil, Bool-cases, All, ◌≢◌,
}
use tenir.Prelude.Elem.{Distinct}
use tenir.Prelude.Dict.{Dict, insert, keys, keys-insert, insert-Distinct, All-insert}
use tenir.Prelude.Text.{Text}
use tenir.FairPool.{
  Pool, Event, arrives, turn, ends, enqueue, to_back, next, others, release, step, run,
}

-- The users with waiting jobs, the next one first.
abbrev pub line : Pool → List Text
line s = keys s.queues

-- A list that starts with another.
Extends : List Text → List Text → Type 0
Extends xs l = (ys : List Text) × (l ≡ xs ++ ys)

insert-Extends :
    (xs : List Text) (user : Text) (q : List ℕ) (d : Dict Text (List ℕ))
    → Extends xs (keys d)
    → Extends xs (keys (insert user q d))
unfolding Extends
insert-Extends xs user q d (ys, e) = elim (Bool-cases (any (λ j. j == user) (keys d))) [
  | inl old ↦
      (ys, keys-insert user q d ∙ (ap (λ b. if b then keys d else keys d ++ (user ∷ [])) old ∙ e))
  | inr fresh ↦ (
    ys ++ (user ∷ []),
    keys-insert user q d
        ∙ (ap (λ b. if b then keys d else keys d ++ (user ∷ [])) fresh
            ∙ (ap (λ l. l ++ (user ∷ [])) e ∙ append_assoc xs ys (user ∷ []))),
  )
]

to_back-Extends :
    (xs : List Text) (user : Text) (q : List ℕ) (d : Dict Text (List ℕ))
    → Extends xs (keys d)
    → Extends xs (keys (to_back user q d))
unfolding to_back
to_back-Extends xs user [] d h = h
to_back-Extends xs user (j ∷ js) d h = insert-Extends xs user (j ∷ js) d h

-- What an event makes of a known beginning of the line: nobody is served, or the first in line.
Serves : List Text → Pool × List (Text × ℕ) → Type 0
Serves xs (s, []) = Extends xs (line s)
Serves [] (s, j ∷ js) = Unit
Serves (x ∷ xs) (s, j ∷ js) = (j.0 ≡ x) × (js ≡ []) × Extends xs (line s)

turn-Serves :
    (workers busy : ℕ) (calls : List (Text × ℕ)) (cancelled : Bool) (q : Dict Text (List ℕ))
    (xs : List Text)
    → Extends xs (keys q)
    → Serves xs
        (step workers (turn cancelled) (record { busy = busy; running = calls; queues = q }))
unfolding step next Serves Extends
turn-Serves workers busy calls cancelled [] xs h = elim (Bool-cases (ltb busy workers)) [
  | inl free ↦ rw (free, next) h
  | inr full ↦ rw (full, next) h
]
turn-Serves workers busy calls cancelled ((u, []) ∷ rest) xs h =
    elim (Bool-cases (ltb busy workers)) [
      | inl free ↦ rw (free, next) h
      | inr full ↦ rw (full, next) h
    ]
turn-Serves workers busy calls cancelled ((u, j ∷ js) ∷ rest) [] h =
    elim (Bool-cases (ltb busy workers)) [
      | inl free ↦ rw (free, next) tt
      | inr full ↦ rw (full, next) h
    ]
turn-Serves workers busy calls cancelled ((u, j ∷ js) ∷ rest) (x ∷ xs) (ys, e) =
    elim (Bool-cases (ltb busy workers)) [
      | inl free ↦ rw (free, next) (cc, refl, to_back-Extends xs u js rest (ys, cc))
      | inr full ↦ rw (full, next) (ys, e)
    ]

step-Serves :
    (workers : ℕ) (e : Event) (s : Pool) (xs : List Text)
    → Extends xs (line s)
    → Serves xs (step workers e s)
unfolding step Serves enqueue release
step-Serves workers (arrives user job) s xs h = insert-Extends xs user _ s.queues h
step-Serves workers (turn cancelled) s xs h =
    turn-Serves workers s.busy s.running cancelled s.queues xs h
step-Serves workers (ends i) s xs h =
    by_test (λ t. Serves xs (t, [])) (ltb i (length s.running)) (λ runs. h) (λ none_runs. h)

after_step :
    (workers : ℕ) (es : List Event) (xs : List Text) (r : Pool × List (Text × ℕ))
    → Serves xs r
    → length (r.1 ++ (run workers es r.0).1) ≤ length xs
    → ((s : Pool) (ys : List Text)
        → Extends ys (line s)
        → length (run workers es s).1 ≤ length ys
        → map (λ j. j.0) (run workers es s).1 ≡ take (length (run workers es s).1) ys)
    → map (λ j. j.0) (r.1 ++ (run workers es r.0).1)
      ≡ take (length (r.1 ++ (run workers es r.0).1)) xs
unfolding Serves
after_step workers es xs (s, []) h short later = later s xs h short
after_step workers es [] (s, j ∷ js) h short later = absurd (omega arith)
after_step workers es (x ∷ xs) (s, j ∷ []) (first, only, rest) short later =
    ap₂ (◌∷◌) first (later s xs rest (omega arith))
after_step workers es (x ∷ xs) (s, j ∷ k ∷ js) (first, only, rest) short later = absurd (cc)

run-Extends :
    (workers : ℕ) (es : List Event) (s : Pool) (xs : List Text)
    → Extends xs (line s)
    → length (run workers es s).1 ≤ length xs
    → map (λ j. j.0) (run workers es s).1 ≡ take (length (run workers es s).1) xs
unfolding run
run-Extends workers [] s xs h short = refl
run-Extends workers (e ∷ es) s xs h short =
    after_step workers es xs (step workers e s) (step-Serves workers e s xs h) short
      (λ t ys. run-Extends workers es t ys)

-- Whatever happens in between, jobs that arrive, threads that come free and callers that give up: the
-- users who are served next are those in line, in their order and once each, until the line is
-- through.
pub run_in_turn :
    (workers : ℕ) (es : List Event) (s : Pool)
    → length (run workers es s).1 ≤ length (line s)
    → map (λ j. j.0) (run workers es s).1 ≡ take (length (run workers es s).1) (line s)
unfolding Extends
run_in_turn workers es s short =
    run-Extends workers es s (line s) ([], sym (append-nil (line s))) short

-- The line of users holds nobody twice and nobody without a job, `busy` counts the calls that run,
-- and there are no more of them than threads.
pub record IsPool (workers : ℕ) (s : Pool) : Type 0 where
  pub once : Distinct (line s)
  pub waiting : All (λ e. e.1 ≢ []) s.queues
  pub counted : s.busy ≡ length s.running
  pub threads : length s.running ≤ workers

to_back-Distinct :
    (user : Text) (q : List ℕ) (d : Dict Text (List ℕ))
    → Distinct (keys d)
    → Distinct (keys (to_back user q d))
unfolding to_back
to_back-Distinct user [] d h = h
to_back-Distinct user (j ∷ js) d h = insert-Distinct user (j ∷ js) d h

to_back-waiting :
    (user : Text) (q : List ℕ) (d : Dict Text (List ℕ))
    → All (λ e. e.1 ≢ []) d
    → All (λ e. e.1 ≢ []) (to_back user q d)
unfolding to_back
to_back-waiting user [] d h = h
to_back-waiting user (j ∷ js) d h = All-insert (λ q. q ≢ []) user (j ∷ js) d (λ e. cc) h

started :
    (workers busy : ℕ) (cancelled : Bool) (calls : List (Text × ℕ)) (c : Text × ℕ)
    → busy ≡ length calls
    → length calls ≤ workers
    → ltb busy workers ≡ true
    → ((if cancelled then busy else busy + 1)
        ≡ length (if cancelled then calls else calls ++ (c ∷ [])))
      × (length (if cancelled then calls else calls ++ (c ∷ [])) ≤ workers)
started workers busy true calls c counted threads free = (counted, threads)
started workers busy false calls c counted threads free =
    let longer = length-append calls (c ∷ []) in
    (omega (arith, longer, counted), ground (arith, longer, counted, free))

next-IsPool :
    (workers busy : ℕ) (calls : List (Text × ℕ)) (cancelled : Bool) (q : Dict Text (List ℕ))
    → IsPool workers (record { busy = busy; running = calls; queues = q })
    → IsPool workers
        (next workers cancelled (record { busy = busy; running = calls; queues = q })).0
unfolding next
next-IsPool workers busy calls cancelled [] h = ground arith
next-IsPool workers busy calls cancelled ((u, []) ∷ rest) h = ground arith
next-IsPool workers busy calls cancelled ((u, j ∷ js) ∷ rest) h =
    elim (Bool-cases (ltb busy workers)) [
      | inl free ↦
          let (counted, threads) =
            started workers busy cancelled calls (u, j) h.counted h.threads free in
          rw (free, next)
            (record {
              once = to_back-Distinct u js rest h.once.1;
              waiting = to_back-waiting u js rest h.waiting.1;
              counted = counted;
              threads = threads;
            })
      | inr full ↦ rw (full, next) h
    ]

length-others :
    (i : ℕ) (calls : List (Text × ℕ))
    → i < length calls
    → length (others i calls) + 1 ≡ length calls
length-others i [] h = absurd (omega arith)
length-others zero (c ∷ cs) h = omega arith
length-others (suc i) (c ∷ cs) h = omega (arith, length-others i cs (omega arith))

snoc_ne : (xs : List ℕ) (x : ℕ) → xs ++ (x ∷ []) ≢ []
snoc_ne [] x = λ e. cc
snoc_ne (y ∷ xs) x = λ e. cc

-- `_next` starts no job on a thread that is not free, and no event breaks the line: over any events,
-- it holds each waiting user once, nobody without a job, `busy` is the number of the calls that run,
-- and that is at most `workers`.
pub run-IsPool :
    (workers : ℕ) (es : List Event) (s : Pool)
    → IsPool workers s
    → IsPool workers (run workers es s).0
unfolding run step enqueue release
run-IsPool workers [] s h = h
run-IsPool workers (arrives user job ∷ es) s h =
    run-IsPool workers es (enqueue user job s) (record {
      once = insert-Distinct user _ s.queues h.once;
      waiting = All-insert (λ q. q ≢ []) user _ s.queues (snoc_ne _ job) h.waiting;
      counted = h.counted;
      threads = h.threads;
    })
run-IsPool workers (turn cancelled ∷ es) s h =
    run-IsPool workers es (next workers cancelled s).0
      (next-IsPool workers s.busy s.running cancelled s.queues h)
run-IsPool workers (ends i ∷ es) s h =
    run-IsPool workers es (if ltb i (length s.running) then release i s else s) (
      by_test (IsPool workers) (ltb i (length s.running))
        (λ runs.
          let fewer = length-others i s.running (ground (arith, runs)) in
          record {
            once = h.once;
            waiting = h.waiting;
            counted = omega (arith, fewer, h.counted);
            threads = omega (arith, fewer, h.threads);
          })
        (λ none_runs. h))
