-- ===== src/Streaming/Backlog.antt =====
-- api/src/api/stt/streaming.py: what `_coalesce_backlog` decodes as one turn.
use tenir.Prelude.{
  ℕ, ◌+◌, ◌≤◌, ◌<◌, ◌≡◌, inl, inr, refl, ◌∙◌, max, true, false, Option, List, [], ◌∷◌, ◌++◌, length,
  length-append, append_assoc, arith, if◌then◌else◌, ltb, Bool-cases,
}
use tenir.Streaming.Cut.{Bytes}
use tenir.Streaming.Ingest.{Job, partial, final}
use tenir.Streaming.Audio.{audio}
use tenir.Streaming.Worker.{Merged, coalesce, coalesce_backlog, merge_limit}

-- The next job is a final that does not fit.
unfoldable pub TooLong : ℕ → Bytes → List Job → Type 0
TooLong limit merged [] = Unit
TooLong limit merged (partial pcm at ∷ js) = ⊥
TooLong limit merged (final pcm from speech at ∷ js) = limit < length merged + length pcm

pub record IsMerge (limit : ℕ) (pcm : Bytes) (js : List Job) (r : Merged) : Type 0 where
  pub same_audio : r.audio_of ++ audio r.left ≡ pcm ++ audio js
  pub within : length r.audio_of ≤ max (length pcm) limit
  pub stops : TooLong limit r.audio_of r.left

coalesce-IsMerge :
    (limit : ℕ) (js : List Job) (m : Merged) → IsMerge limit m.audio_of js (coalesce limit js m)
unfolding coalesce audio TooLong
coalesce-IsMerge limit [] m = record { same_audio = refl; within = omega arith; stops = tt }
coalesce-IsMerge limit (partial pcm at ∷ js) m =
    let r = coalesce-IsMerge limit js (record m { dropped = true }) in
    record { same_audio = r.same_audio; within = r.within; stops = r.stops }
coalesce-IsMerge limit (final pcm from speech at ∷ js) m =
    let longer : Merged = record m {
      audio_of = m.audio_of ++ pcm;
      turns = m.turns + 1;
      speech_turns = m.speech_turns + (if speech then 1 else 0);
    } in
    let r = coalesce-IsMerge limit js longer in
    elim (Bool-cases (ltb limit (length m.audio_of + length pcm))) [
      | inl over ↦
          rw (over, coalesce)
            (record { same_audio = refl; within = omega arith; stops = ground arith })
      | inr fits ↦
          rw (fits, coalesce)
            (record {
              same_audio = r.same_audio ∙ append_assoc m.audio_of pcm (audio js);
              within = ground (arith, r.within, length-append m.audio_of pcm);
              stops = r.stops;
            })
    ]

-- The merge decodes the late turn and the finals behind it end to end, in their order, and what is
-- left in the queue follows on; it is no longer than the limit or the late turn alone; it stops at
-- the end of the queue or at a final that the limit has no room for.
pub coalesce_backlog-IsMerge :
    (rate_limit : Option ℕ) (pcm : Bytes) (js : List Job)
    → IsMerge (merge_limit rate_limit) pcm js (coalesce_backlog rate_limit pcm js)
unfolding coalesce_backlog
coalesce_backlog-IsMerge rate_limit pcm js =
    coalesce-IsMerge (merge_limit rate_limit) js
      (record { audio_of = pcm; turns = 0; speech_turns = 0; dropped = false; left = js })
