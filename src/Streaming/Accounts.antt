-- ===== src/Streaming/Accounts.antt =====
-- api/src/api/stt/streaming.py: the counts that intake and worker share, `_partial_pending` and
-- `_speech_finals_pending`, against the jobs that are queued or decoded.
use tenir.Prelude.{
  List-cases, ℕ, ◌+◌, ◌-◌, ◌≤◌, ◌≡◌, refl, ap, Bool, true, false, ◌&&◌, ◌||◌, Option, List, [], ◌∷◌,
  ◌++◌, arith, if◌then◌else◌, ltb, Bool-cases, inl, inr, ◌⊎◌,
}
use tenir.Streaming.Cut.{Bytes}
use tenir.Streaming.Ingest.{Config, Job, partial, final, Intake}
use tenir.Streaming.Worker.{
  Session, Task, idle, of_partial, of_final, Merged, coalesce, coalesce_backlog, begin, take_job,
  end_task, Event, chunk, closing, took, ended, step, run_events, partial_stale_ms, final_behind_ms,
  behind_real_time,
}
use tenir.Streaming.Pending.{
  partials, speech_finals, bit, counts-append, Adds, push-Adds, flush-Adds,
}

-- What a run keeps true.
abbrev pub task_partials : Task → ℕ
task_partials idle = 0
task_partials (of_partial pcm) = 1
task_partials (of_final pcm from speech turns merged) = 0

abbrev pub task_finals : Task → ℕ
task_finals idle = 0
task_finals (of_partial pcm) = 0
task_finals (of_final pcm from speech turns merged) = turns

pub record Accounts (s : Session) : Type 0 where
  pub one_partial : bit s.intake.partial_pending ≡ task_partials s.task + partials s.jobs
  pub finals_due : s.intake.speech_finals_pending ≡ task_finals s.task + speech_finals s.jobs

coalesce-counts :
    (limit : ℕ) (js : List Job) (m : Merged)
    → (partials (coalesce limit js m).left ≤ partials js)
      × ((coalesce limit js m).dropped
          ≡ (m.dropped || ltb (partials (coalesce limit js m).left) (partials js)))
      × ((coalesce limit js m).speech_turns + speech_finals (coalesce limit js m).left
          ≡ m.speech_turns + speech_finals js)
unfolding coalesce partials speech_finals
coalesce-counts limit [] m = (omega arith, ground arith, omega arith)
coalesce-counts limit (partial pcm at ∷ js) m =
    let (p, d, f) = coalesce-counts limit js (record m { dropped = true }) in
    (omega arith, ground arith, f)
coalesce-counts limit (final pcm from speech at ∷ js) m =
    let rest = coalesce-counts limit js (record m {
      audio_of = m.audio_of ++ pcm;
      turns = m.turns + 1;
      speech_turns = m.speech_turns + (if speech then 1 else 0);
    }) in
    ground (arith, rest)

Task-cases :
    (t : Task)
    → (t ≡ idle)
      ⊎ (((pcm : Bytes) × (t ≡ of_partial pcm))
          ⊎ ((pcm : Bytes) × (from : ℕ) × (speech : Bool) × (turns : ℕ) × (merged : Bool) × (t
                ≡ of_final pcm from speech turns merged)))
Task-cases idle = inl refl
Task-cases (of_partial pcm) = inr (inl (pcm, refl))
Task-cases (of_final pcm from speech turns merged) =
    inr (inr (pcm, from, speech, turns, merged, refl))

Accounts-at :
    (s : Session) (t : Task)
    → s.task ≡ t
    → Accounts s
    → (bit s.intake.partial_pending ≡ task_partials t + partials s.jobs)
      × (s.intake.speech_finals_pending ≡ task_finals t + speech_finals s.jobs)
Accounts-at s t e h = rw (← e) (h.one_partial, h.finals_due)

Accounts-idle :
    (s : Session) (js : List Job)
    → s.task ≡ idle
    → s.jobs ≡ js
    → Accounts s
    → (bit s.intake.partial_pending ≡ partials js)
      × (s.intake.speech_finals_pending ≡ speech_finals js)
Accounts-idle s js free first h =
    let (p, f) = Accounts-at s idle free h in
    (omega (arith, p, ap partials first), omega (arith, f, ap speech_finals first))

bit-le : (b : Bool) → bit b ≤ 1
bit-le true = omega arith
bit-le false = omega arith

coalesce_backlog-counts :
    (rate_limit : Option ℕ) (pcm : Bytes) (js : List Job)
    → (partials (coalesce_backlog rate_limit pcm js).left ≤ partials js)
      × ((coalesce_backlog rate_limit pcm js).dropped
          ≡ ltb (partials (coalesce_backlog rate_limit pcm js).left) (partials js))
      × ((coalesce_backlog rate_limit pcm js).speech_turns
            + speech_finals (coalesce_backlog rate_limit pcm js).left
          ≡ speech_finals js)
unfolding coalesce_backlog
coalesce_backlog-counts rate_limit pcm js =
    let (p, d, f) =
      coalesce-counts _ js
        (record { audio_of = pcm; turns = 0; speech_turns = 0; dropped = false; left = js }) in
    (p, d, omega (arith, f))

begin-Accounts :
    (now : ℕ) (rate_limit : Option ℕ) (j : Job) (js : List Job) (s : Session)
    → s.task ≡ idle
    → s.jobs ≡ j ∷ js
    → Accounts s
    → Accounts (begin now rate_limit j js s)
unfolding begin partials speech_finals
begin-Accounts now rate_limit (partial pcm at) js s free first h =
    let (p, f) = Accounts-idle s (partial pcm at ∷ js) free first h in
    elim (Bool-cases (ltb partial_stale_ms (now - at))) [
      | inl stale ↦
          rw (stale, begin)
            (record {
              one_partial = rw free (omega (arith, p, bit-le s.intake.partial_pending));
              finals_due = rw free (omega (arith, f));
            })
      | inr fresh ↦
          rw (fresh, begin)
            (record { one_partial = omega (arith, p); finals_due = omega (arith, f) })
    ]
begin-Accounts now rate_limit (final pcm from speech at) js s free first h =
    let (p, f) = Accounts-idle s (final pcm from speech at ∷ js) free first h in
    elim (Bool-cases (behind_real_time s.final_decodes && ltb final_behind_ms (now - at))) [
      | inl late ↦
          rw (late, begin)
            (record {
              one_partial = ground (arith, p, coalesce_backlog-counts rate_limit pcm js);
              finals_due = omega (arith, f, (coalesce_backlog-counts rate_limit pcm js).2);
            })
      | inr in_time ↦
          rw (in_time, begin)
            (record { one_partial = omega (arith, p); finals_due = omega (arith, f) })
    ]

end_task-Accounts :
    (cleared : Bool) (measure : Option (ℕ × ℕ)) (s : Session)
    → Accounts s
    → Accounts (end_task cleared measure s)
unfolding end_task
end_task-Accounts cleared measure s h = elim (Task-cases s.task) [
  | inl e ↦ rw (e, end_task) h
  | inr (inl (pcm, e)) ↦
      let (p, f) = Accounts-at s (of_partial pcm) e h in
      rw (e, end_task)
        (record {
          one_partial = omega (arith, p, bit-le s.intake.partial_pending);
          finals_due = omega (arith, f);
        })
  | inr (inr (pcm, from, speech, turns, merged, e)) ↦
      let (p, f) = Accounts-at s (of_final pcm from speech turns merged) e h in
      rw (e, end_task) (record { one_partial = omega (arith, p); finals_due = omega (arith, f) })
]

take_job-Accounts :
    (now : ℕ) (rate_limit : Option ℕ) (s : Session)
    → Accounts s
    → Accounts (take_job now rate_limit s)
unfolding take_job
take_job-Accounts now rate_limit s h = elim (Task-cases s.task) [
  | inl e ↦
      rw (e, take_job)
        (elim (List-cases s.jobs) [
          | inl none_left ↦ rw none_left h
          | inr (j, js, first) ↦ rw first (begin-Accounts now rate_limit j js s e first h)
        ])
  | inr (inl (pcm, e)) ↦ rw (e, take_job) h
  | inr (inr (pcm, from, speech, turns, merged, e)) ↦ rw (e, take_job) h
]

Accounts-Adds :
    (s : Session) (t : Intake) (more : List Job)
    → Adds s.intake t more
    → Accounts s
    → Accounts (record s { intake = t; jobs = s.jobs ++ more })
Accounts-Adds s t more a h =
    let (p, f) = counts-append s.jobs more in
    record {
      one_partial = omega (arith, a.adds_partials, h.one_partial, p);
      finals_due = omega (arith, a.adds_finals, h.finals_due, f);
    }

module _ (cfg : Config) where
  step-Accounts : (e : Event) (s : Session) → Accounts s → Accounts (step cfg e s)
  unfolding step
  step-Accounts (chunk now pcm score) s h =
      Accounts-Adds s _ _ (push-Adds cfg now pcm score s.intake) h
  step-Accounts (closing now) s h = Accounts-Adds s _ _ (flush-Adds cfg now s.intake) h
  step-Accounts (took now rate_limit) s h = take_job-Accounts now rate_limit s h
  step-Accounts (ended cleared measure) s h = end_task-Accounts cleared measure s h

  -- Over any events, the flag for a pending partial counts the partials that are queued or decoded,
  -- so there is at most one, and the count of pending speech finals is exact: it holds each turn
  -- with speech that is queued, or merged into what is decoded.
  pub run_events-Accounts :
      (es : List Event) (s : Session) → Accounts s → Accounts (run_events cfg es s)
  unfolding run_events
  run_events-Accounts [] s h = h
  run_events-Accounts (e ∷ es) s h = run_events-Accounts es (step cfg e s) (step-Accounts e s h)
