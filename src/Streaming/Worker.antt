-- ===== src/Streaming/Worker.antt =====
-- api/src/api/stt/streaming.py: the worker that decodes the queued jobs in order, beside the intake.
-- A run is a list of events: a push or a flush, the worker takes a job, the decode it runs ends
-- (returned or raised: both run the same `finally`). Times are in milliseconds; a decode's duration
-- and its audio are what the engine measured, so `ended` carries them.
use tenir.Prelude.{
  ℕ, ◌+◌, ◌-◌, min, Bool, true, false, ◌&&◌, ◌||◌, not, Option, none, some, List, [], ◌∷◌, ◌++◌,
  map, length, drop, keep_if, ltb, leb, if◌then◌else◌,
}
use tenir.Streaming.Cut.{Bytes, ms_to_bytes, sum, twice_median}
use tenir.Streaming.Ingest.{Config, Job, partial, final, Intake, start, push, flush}

-- What the worker is decoding: a partial, or a final with the number of speech turns in it and
-- whether queued turns were merged into it.
pub data Task : Type 0 where
  idle : Task
  of_partial : Bytes → Task
  of_final : Bytes → ℕ → Bool → ℕ → Bool → Task

pub record Session : Type 0 where
  pub intake : Intake
  pub jobs : List Job
  pub task : Task
  pub final_decodes : List (ℕ × ℕ)

abbrev pub partial_stale_ms : ℕ
partial_stale_ms = 1000

abbrev pub final_behind_ms : ℕ
final_behind_ms = 3000

abbrev pub behind_window : ℕ
behind_window = 5

abbrev pub behind_min_decodes : ℕ
behind_min_decodes = 3

abbrev pub coalesce_max_ms : ℕ
coalesce_max_ms = 24000

-- A decode is a stall if it took more than twice the median.
unfoldable pub behind_real_time : List (ℕ × ℕ) → Bool
unfolding twice_median sum
behind_real_time decodes =
    let typical : ℕ = twice_median (map (λ d. d.0) decodes) in
    let kept : List (ℕ × ℕ) = keep_if (λ d. leb d.0 typical) decodes in
    if ltb (length decodes) behind_min_decodes
    then false
    else ltb (sum (map (λ d. d.1) kept)) (sum (map (λ d. d.0) kept))

-- What `_coalesce_backlog` took from the queue: the audio, the turns and the speech turns merged in,
-- whether a partial was dropped, and the queue that is left.
pub record Merged : Type 0 where
  pub audio_of : Bytes
  pub turns : ℕ
  pub speech_turns : ℕ
  pub dropped : Bool
  pub left : List Job

unfoldable pub coalesce : ℕ → List Job → Merged → Merged
coalesce limit [] m = record m { left = [] }
coalesce limit (partial pcm at ∷ js) m = coalesce limit js (record m { dropped = true })
coalesce limit (final pcm from speech at ∷ js) m =
    let rest = coalesce limit js (record m {
      audio_of = m.audio_of ++ pcm;
      turns = m.turns + 1;
      speech_turns = m.speech_turns + (if speech then 1 else 0);
    }) in
    if ltb limit (length m.audio_of + length pcm)
    then record m { left = final pcm from speech at ∷ js }
    else rest

-- `rate_limit` is the audio that the decode rate seen allows for a merge, none before there is one.
unfoldable pub merge_limit : Option ℕ → ℕ
unfolding ms_to_bytes
merge_limit none = ms_to_bytes coalesce_max_ms
merge_limit (some bytes) = min (ms_to_bytes coalesce_max_ms) bytes

unfoldable pub coalesce_backlog : Option ℕ → Bytes → List Job → Merged
unfolding merge_limit
coalesce_backlog rate_limit pcm js =
    coalesce (merge_limit rate_limit) js
      (record { audio_of = pcm; turns = 0; speech_turns = 0; dropped = false; left = js })

-- `_work` up to the decode, for a job from the head of the queue.
unfoldable pub begin : ℕ → Option ℕ → Job → List Job → Session → Session
begin now rate_limit (partial pcm at) js s =
    if ltb partial_stale_ms (now - at)
    then record s { jobs = js; intake = record s.intake { partial_pending = false } }
    else record s { jobs = js; task = of_partial pcm }
begin now rate_limit (final pcm from speech at) js s =
    if behind_real_time s.final_decodes && ltb final_behind_ms (now - at)
    then (let m = coalesce_backlog rate_limit pcm js in
        record s {
          jobs = m.left;
          intake = record s.intake { partial_pending = s.intake.partial_pending && not m.dropped };
          task =
              of_final m.audio_of from (speech || ltb 0 m.speech_turns)
                ((if speech then 1 else 0) + m.speech_turns) (ltb 0 m.turns);
        })
    else record s { jobs = js; task = of_final pcm from speech (if speech then 1 else 0) false }

unfoldable pub take_job : ℕ → Option ℕ → Session → Session
take_job now rate_limit s = elim s.task [
  | idle ↦ (elim s.jobs [ [] ↦ s | j ∷ js ↦ begin now rate_limit j js s ])
  | of_partial pcm ↦ s
  | of_final pcm from speech turns merged ↦ s
]

-- The append to the `deque` of the last measures.
unfoldable pub note_decode : Option (ℕ × ℕ) → List (ℕ × ℕ) → List (ℕ × ℕ)
note_decode none ds = ds
note_decode (some d) ds = drop (length ds + 1 - behind_window) (ds ++ (d ∷ []))

-- `_work` after the decode: whether `_decode_final` had to clear the measures, and the measure of this
-- decode, none if the engine did not return one.
unfoldable pub end_task : Bool → Option (ℕ × ℕ) → Session → Session
end_task cleared measure s = elim s.task [
  | idle ↦ s
  | of_partial pcm ↦ record s { task = idle; intake = record s.intake { partial_pending = false } }
  | of_final pcm from speech turns merged ↦ record s {
    task = idle;
    intake = record s.intake { speech_finals_pending = s.intake.speech_finals_pending - turns };
    final_decodes =
        note_decode (if merged then none else measure) (if cleared then [] else s.final_decodes);
  }
]

pub data Event : Type 0 where
  chunk : ℕ → Bytes → Option ℕ → Event
  closing : ℕ → Event
  took : ℕ → Option ℕ → Event
  ended : Bool → Option (ℕ × ℕ) → Event

module _ (cfg : Config) where
  unfoldable pub step : Event → Session → Session
  step (chunk now pcm score) s =
      let (intake, more) = push cfg now pcm score s.intake in
      record s { intake = intake; jobs = s.jobs ++ more }
  step (closing now) s =
      let (intake, more) = flush cfg now s.intake in
      record s { intake = intake; jobs = s.jobs ++ more }
  step (took now rate_limit) s = take_job now rate_limit s
  step (ended cleared measure) s = end_task cleared measure s

  unfoldable pub run_events : List Event → Session → Session
  run_events [] s = s
  run_events (e ∷ es) s = run_events es (step e s)

unfoldable pub opened_session : Bool → ℕ → Session
unfolding start
opened_session vad_model start_offset_ms = record {
  intake = start vad_model start_offset_ms;
  jobs = [];
  task = idle;
  final_decodes = [];
}
