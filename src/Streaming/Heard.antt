-- ===== src/Streaming/Heard.antt =====
-- api/src/api/stt/streaming.py: the places of the speech in a turn, and what a cut makes of them.
use tenir.Prelude.{
  ℕ, ◌+◌, ◌≤◌, ◌<◌, ◌≡◌, ◌⊎◌, inl, inr, Bool, true, false, Option, List, [], ◌∷◌, length,
  length-append, length-drop, arith, ltb, Bool-cases,
}
use tenir.Streaming.Cut.{Bytes}
use tenir.Streaming.Bounds.{quietest_cut-le}
use tenir.Streaming.Ingest.{
  Config, Intake, Chunk, start, push, push_all, accept, buffer, schedule, close_turn, update_vad,
  note_speech, model_says_speech, track_level,
}
use tenir.Streaming.Pending.{speech_finals}
use tenir.Streaming.Audio.{schedule-induct}

-- Between the start of the turn's speech and its trailing silence there is audio.
unfoldable pub Heard : Intake → Type 0
Heard s = s.has_speech ≡ true → s.speech_from + s.trailing_silence < length s.buf

-- What the voice judgement reads or writes of a turn.
record SameTurn (s t : Intake) : Type 0 where
  same_buf : t.buf ≡ s.buf
  same_speech : t.has_speech ≡ s.has_speech
  same_from : t.speech_from ≡ s.speech_from
  same_silence : t.trailing_silence ≡ s.trailing_silence

-- A chunk was buffered: before it, the turn's speech was in place.
unfoldable Buffered : Bytes → Intake → Type 0
Buffered pcm s =
    (s.has_speech ≡ true → s.speech_from + s.trailing_silence + length pcm < length s.buf)
    × (0 < length pcm)
    × (length pcm ≤ length s.buf)

SameTurn-Buffered : (pcm : Bytes) (s t : Intake) → SameTurn s t → Buffered pcm s → Buffered pcm t
unfolding Buffered
SameTurn-Buffered pcm s t k h = ground (arith)

module _ (cfg : Config) where
  note_speech-Heard :
      (pcm : Bytes) (b : Bool) (s : Intake) → Buffered pcm s → Heard (note_speech cfg pcm b s)
  unfolding note_speech Heard Buffered
  note_speech-Heard pcm true s h = λ e. ground arith
  note_speech-Heard pcm false s h = λ e. omega (arith, h.0 e)

  close_turn-Heard :
      (now cut : ℕ) (s : Intake) → cut ≤ length s.buf → Heard s → Heard (close_turn cfg now cut s).0
  unfolding close_turn Heard
  close_turn-Heard now cut s le h = λ e. ground (arith, length-drop cut s.buf)

  schedule-Heard : (now : ℕ) (s : Intake) → Heard s → Heard (schedule cfg now s).0
  unfolding Heard
  schedule-Heard now s h =
      schedule-induct cfg (λ r. Heard r.0) now s
        (λ _. close_turn-Heard now _ s (quietest_cut-le cfg.energy s.buf) h)
        (λ _ _. close_turn-Heard now _ s (omega arith) h) (λ _. h) (λ _ _ _. h)

  track_level-SameTurn : (pcm : Bytes) (s : Intake) → SameTurn s (track_level cfg pcm s)
  unfolding track_level
  track_level-SameTurn pcm s = ground arith

  model_says_speech-SameTurn :
      (score : Option ℕ) (s : Intake) → SameTurn s (model_says_speech cfg score s).0
  unfolding model_says_speech
  model_says_speech-SameTurn score s = ground arith

  update_vad-Heard :
      (pcm : Bytes) (score : Option ℕ) (s : Intake)
      → Buffered pcm s
      → Heard (update_vad cfg pcm score s)
  unfolding update_vad Buffered
  update_vad-Heard pcm score s h = note_speech-Heard pcm _ _ (
      SameTurn-Buffered pcm _ _ (model_says_speech-SameTurn score _)
        (SameTurn-Buffered pcm s _ (track_level-SameTurn pcm s) h))

  accept-Heard :
      (now : ℕ) (samples carry : Bytes) (score : Option ℕ) (s : Intake)
      → Heard s
      → Heard (accept cfg now samples carry score s).0
  unfolding accept Buffered Heard
  accept-Heard now [] carry score s h = h
  accept-Heard now (b ∷ bs) carry score s h =
      let more = length-append s.buf (b ∷ bs) in
      schedule-Heard now _ (
        update_vad-Heard (b ∷ bs) score (buffer cfg (b ∷ bs) carry s)
          ((λ e. omega (arith, h e, more)), omega arith, omega (arith, more)))

  push_all-Heard : (chunks : List Chunk) (s : Intake) → Heard s → Heard (push_all cfg chunks s).0
  unfolding push_all push
  push_all-Heard [] s h = h
  push_all-Heard ((now, (pcm, score)) ∷ chunks) s h =
      push_all-Heard chunks (push cfg now pcm score s).0 (accept-Heard now _ _ score s h)

  start-Heard : (vad_model : Bool) (start_offset_ms : ℕ) → Heard (start vad_model start_offset_ms)
  unfolding Heard start
  start-Heard vad_model start_offset_ms = λ e. cc

  cut-speech :
      (now cut : ℕ) (s : Intake)
      → s.has_speech ≡ true
      → cut ≤ length s.buf
      → s.speech_from + s.trailing_silence < length s.buf
      → (speech_finals (close_turn cfg now cut s).1 ≡ 1)
        ⊎ ((close_turn cfg now cut s).0.has_speech ≡ true)
  unfolding close_turn speech_finals
  cut-speech now cut s speech le h = elim (Bool-cases (ltb s.speech_from cut)) [
    | inl head ↦ inl (ground arith)
    | inr tail ↦ inr (ground arith)
  ]

  -- In a turn with speech, after any chunks of a session: wherever the turn is cut, the part that
  -- goes to the decode is marked as speech, or what stays buffered still is.
  cut_keeps_speech :
      (chunks : List Chunk) (vad_model : Bool) (start_offset_ms now cut : ℕ)
      → (push_all cfg chunks (start vad_model start_offset_ms)).0.has_speech ≡ true
      → cut ≤ length (push_all cfg chunks (start vad_model start_offset_ms)).0.buf
      → (speech_finals
            (close_turn cfg now cut (push_all cfg chunks (start vad_model start_offset_ms)).0).1
          ≡ 1)
        ⊎ ((close_turn cfg now cut
              (push_all cfg chunks (start vad_model start_offset_ms)).0).0.has_speech
            ≡ true)
  unfolding Heard
  cut_keeps_speech chunks vad_model start_offset_ms now cut speech le =
      cut-speech now cut (push_all cfg chunks (start vad_model start_offset_ms)).0 speech le
        (push_all-Heard chunks _ (start-Heard vad_model start_offset_ms) speech)
