-- ===== src/Streaming/Ingest.antt =====
-- api/src/api/stt/streaming.py: the intake side of `StreamingTranscriber`, from a pushed chunk to the
-- decode jobs. Levels and probabilities are natural numbers (a fixed point for the floats). What numpy
-- and the speech model compute comes in as `rms`, `energy` and the score of the chunk; the two float
-- products of the threshold are `noise_times` and `peak_part`.
use tenir.Prelude.{
  ℕ, ◌+◌, ◌-◌, ◌%◌, min, max, Bool, true, false, ◌&&◌, ◌||◌, not, Option, none, some, List, [], ◌∷◌,
  ◌++◌, length, take, drop, ltb, leb, if◌then◌else◌,
}
use tenir.Streaming.Cut.{Bytes, bytes_to_ms, quietest_cut}

pub record Config : Type 0 where
  pub partial_bytes : ℕ
  pub partial_window_bytes : ℕ
  pub max_segment_bytes : ℕ
  pub min_segment_bytes : ℕ
  pub silence_bytes : ℕ
  pub silence_rms : ℕ
  pub local_agreement : Bool
  pub vad_adaptive : Bool
  pub vad_window_bytes : ℕ
  pub vad_model_floor_rms : ℕ
  pub rms : Bytes → ℕ
  pub energy : Bytes → ℕ
  pub noise_times : ℕ → ℕ
  pub peak_part : ℕ → ℕ

-- A decode job, with the time at which it was queued.
pub data Job : Type 0 where
  partial : Bytes → ℕ → Job
  final : Bytes → ℕ → Bool → ℕ → Job

pub record Intake : Type 0 where
  pub buf : Bytes
  pub carry : Bytes
  pub since_partial : ℕ
  pub trailing_silence : ℕ
  pub has_speech : Bool
  pub speech_from : ℕ
  pub energy_heard : Bool
  pub segment_start_ms : ℕ
  pub levels : List (ℕ × ℕ)
  pub levels_bytes : ℕ
  pub vad_model : Bool
  pub model_speaking : Bool
  pub partial_pending : Bool
  pub speech_finals_pending : ℕ

-- `__init__`
unfoldable pub start : Bool → ℕ → Intake
start vad_model start_offset_ms = record {
  buf = [];
  carry = [];
  since_partial = 0;
  trailing_silence = 0;
  has_speech = false;
  speech_from = 0;
  energy_heard = false;
  segment_start_ms = start_offset_ms;
  levels = [];
  levels_bytes = 0;
  vad_model = vad_model;
  model_speaking = false;
  partial_pending = false;
  speech_finals_pending = 0;
}

-- Thousandths of `_VAD_MODEL_ON` and `_VAD_MODEL_OFF`.
abbrev pub vad_model_on : ℕ
vad_model_on = 500

abbrev pub vad_model_off : ℕ
vad_model_off = 350

-- The loop of `_track_level`: the oldest levels fall out, but for one.
unfoldable pub drop_old : ℕ → List (ℕ × ℕ) → ℕ → List (ℕ × ℕ) × ℕ
drop_old window [] bytes = ([], bytes)
drop_old window (x ∷ []) bytes = (x ∷ [], bytes)
drop_old window (x ∷ y ∷ ls) bytes =
    let rest = drop_old window (y ∷ ls) (bytes - x.0) in
    if leb window (bytes - x.0) then rest else (x ∷ y ∷ ls, bytes)

unfoldable pub min_level : ℕ → List (ℕ × ℕ) → ℕ
min_level n [] = n
min_level n (l ∷ ls) = min_level (min n l.1) ls

unfoldable pub max_level : ℕ → List (ℕ × ℕ) → ℕ
max_level n [] = n
max_level n (l ∷ ls) = max_level (max n l.1) ls

-- A pushed chunk with its time and the model's score of it.
abbrev pub Chunk : Type 0
Chunk = ℕ × (Bytes × Option ℕ)

module _ (cfg : Config) where
  unfoldable pub track_level : Bytes → Intake → Intake
  track_level pcm s =
      let (levels, bytes) =
        drop_old cfg.vad_window_bytes (s.levels ++ ((length pcm, cfg.rms pcm) ∷ []))
          (s.levels_bytes + length pcm) in
      record s { levels = levels; levels_bytes = bytes }

  unfoldable pub speech_threshold : Intake → ℕ
  speech_threshold s = if not cfg.vad_adaptive then cfg.silence_rms else elim s.levels [
    | [] ↦ cfg.silence_rms
    | l ∷ ls ↦
        max cfg.silence_rms
          (min (cfg.noise_times (min_level l.1 ls)) (cfg.peak_part (max_level l.1 ls)))
  ]

  abbrev pub quietest_level : Intake → ℕ
  quietest_level s = elim s.levels [ [] ↦ 0 | l ∷ ls ↦ min_level l.1 ls ]

  -- `_model_says_speech`; `score` is the model's answer, none if it raises.
  unfoldable pub model_says_speech : Option ℕ → Intake → Intake × Option Bool
  model_says_speech score s = if not s.vad_model then (s, none) else elim score [
    | none ↦ (record s { vad_model = false }, none)
    | some prob ↦
        let speaking = leb (if s.model_speaking then vad_model_off else vad_model_on) prob in
        (
          record s { model_speaking = speaking },
          if ltb (quietest_level s) cfg.vad_model_floor_rms then none else some speaking,
        )
  ]

  -- The end of `_update_vad`, once the chunk is judged.
  unfoldable pub note_speech : Bytes → Bool → Intake → Intake
  note_speech pcm true s = record s {
    speech_from = if s.has_speech then s.speech_from else length s.buf - length pcm;
    has_speech = true;
    trailing_silence = 0;
  }
  note_speech pcm false s = record s { trailing_silence = s.trailing_silence + length pcm }

  unfoldable pub update_vad : Bytes → Option ℕ → Intake → Intake
  update_vad pcm score s =
      let s1 = track_level pcm s in
      let energy = leb (speech_threshold s1) (cfg.rms pcm) in
      let (s3, verdict) =
        model_says_speech score (record s1 { energy_heard = s1.energy_heard || energy }) in
      note_speech pcm (elim verdict [ none ↦ energy | some speech ↦ speech ]) s3

  -- `_close_turn`
  unfoldable pub close_turn : ℕ → ℕ → Intake → Intake × List Job
  close_turn now cut s =
      let tail = length s.buf - cut in
      let head_speech = s.has_speech && ltb s.speech_from cut in
      let tail_speech = s.has_speech && ltb s.trailing_silence tail in
      (
        record s {
          buf = drop cut s.buf;
          since_partial = 0;
          has_speech = tail_speech;
          speech_from = s.speech_from - cut;
          energy_heard = tail_speech;
          trailing_silence = min s.trailing_silence tail;
          segment_start_ms = s.segment_start_ms + bytes_to_ms cut;
          speech_finals_pending = s.speech_finals_pending + (if head_speech then 1 else 0);
        },
        final (take cut s.buf) s.segment_start_ms head_speech now ∷ [],
      )

  -- What a partial decodes: the trailing window, or the whole turn for LocalAgreement.
  unfoldable pub partial_audio : Intake → Bytes
  partial_audio s =
      if not cfg.local_agreement && ltb 0 cfg.partial_window_bytes
      then drop (length s.buf - cfg.partial_window_bytes) s.buf
      else s.buf

  -- `push` after the chunk was buffered and judged.
  unfoldable pub schedule : ℕ → Intake → Intake × List Job
  schedule now s =
      if leb cfg.max_segment_bytes (length s.buf)
      then close_turn now (quietest_cut cfg.energy s.buf) s
      else if s.has_speech
          && (leb cfg.silence_bytes s.trailing_silence && leb cfg.min_segment_bytes (length s.buf))
      then close_turn now (length s.buf) s
      else if s.has_speech && leb cfg.partial_bytes s.since_partial
      then (if s.partial_pending then (s, []) else (
        record s { since_partial = 0; partial_pending = true },
        partial (partial_audio s) now ∷ [],
      ))
      else (s, [])

  -- The chunk with the byte carried over from the last one, up to a whole number of samples.
  unfoldable pub whole_samples : Bytes → Intake → Bytes × Bytes
  whole_samples pcm s =
      let all = s.carry ++ pcm in
      let even = length all - length all % 2 in (take even all, drop even all)

  abbrev pub buffer : Bytes → Bytes → Intake → Intake
  buffer samples carry s = record s {
    carry = carry;
    buf = s.buf ++ samples;
    since_partial = s.since_partial + length samples;
  }

  -- `push` of whole samples, with the byte that is left over.
  unfoldable pub accept : ℕ → Bytes → Bytes → Option ℕ → Intake → Intake × List Job
  accept now [] carry score s = (record s { carry = carry }, [])
  accept now (b ∷ bs) carry score s =
      schedule now (update_vad (b ∷ bs) score (buffer (b ∷ bs) carry s))

  unfoldable pub push : ℕ → Bytes → Option ℕ → Intake → Intake × List Job
  push now pcm score s =
      let (samples, carry) = whole_samples pcm s in accept now samples carry score s

  -- `flush`, up to the wait for the worker.
  unfoldable pub flush : ℕ → Intake → Intake × List Job
  flush now s =
      if ltb 0 (length s.buf) && (s.has_speech || s.energy_heard)
      then close_turn now (length s.buf) s
      else (s, [])

  unfoldable pub push_all : List Chunk → Intake → Intake × List Job
  push_all [] s = (s, [])
  push_all ((now, (pcm, score)) ∷ chunks) s =
      let (s1, jobs) = push now pcm score s in
      let (s2, more) = push_all chunks s1 in (s2, jobs ++ more)
