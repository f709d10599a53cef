-- ===== src/Streaming/Audio.antt =====
-- api/src/api/stt/streaming.py: what becomes of the audio that is pushed.
use tenir.Prelude.{
  ℕ, ◌≤◌, ◌<◌, ◌≡◌, refl, sym, ap, ap₂, ◌∙◌, Bool, true, false, Option, List, [], ◌∷◌, ◌++◌, length,
  append_assoc, append-nil, take-append-drop, arith,
}
use tenir.Streaming.Cut.{Bytes, quietest_cut}
use tenir.Streaming.Ingest.{
  Config, Job, partial, final, Intake, push, schedule, close_turn, update_vad, note_speech,
  model_says_speech, track_level, whole_samples, accept, buffer, partial_audio, Chunk, push_all,
}

-- The audio of the final decodes, end to end.
unfoldable pub audio : List Job → Bytes
audio [] = []
audio (partial pcm at ∷ js) = audio js
audio (final pcm from speech at ∷ js) = pcm ++ audio js

audio-append : (js ks : List Job) → audio (js ++ ks) ≡ audio js ++ audio ks
unfolding audio
audio-append [] ks = refl
audio-append (partial pcm at ∷ js) ks = audio-append js ks
audio-append (final pcm from speech at ∷ js) ks = rw (audio-append js ks, append_assoc) refl

-- The audio of the chunks, end to end.
unfoldable pub pushed : List Chunk → Bytes
pushed [] = []
pushed ((now, (pcm, score)) ∷ chunks) = pcm ++ pushed chunks

-- What judging a chunk leaves as it is.
pub record Kept (s t : Intake) : Type 0 where
  pub kept_buf : t.buf ≡ s.buf
  pub kept_carry : t.carry ≡ s.carry
  pub kept_start : t.segment_start_ms ≡ s.segment_start_ms
  pub kept_pending : t.partial_pending ≡ s.partial_pending
  pub kept_finals : t.speech_finals_pending ≡ s.speech_finals_pending

Kept-trans : (s t u : Intake) → Kept s t → Kept t u → Kept s u
Kept-trans s t u h k = ground arith

module _ (cfg : Config) where
  track_level-Kept : (pcm : Bytes) (s : Intake) → Kept s (track_level cfg pcm s)
  unfolding track_level
  track_level-Kept pcm s = ground arith

  model_says_speech-Kept :
      (score : Option ℕ) (s : Intake) → Kept s (model_says_speech cfg score s).0
  unfolding model_says_speech
  model_says_speech-Kept score s = ground arith

  note_speech-Kept : (pcm : Bytes) (b : Bool) (s : Intake) → Kept s (note_speech cfg pcm b s)
  unfolding note_speech
  note_speech-Kept pcm true s = ground arith
  note_speech-Kept pcm false s = ground arith

  pub update_vad-Kept :
      (pcm : Bytes) (score : Option ℕ) (s : Intake) → Kept s (update_vad cfg pcm score s)
  unfolding update_vad
  update_vad-Kept pcm score s = Kept-trans _ _ _ (track_level-Kept pcm s) (
      Kept-trans _ _ _
        (record {
          kept_buf = refl;
          kept_carry = refl;
          kept_start = refl;
          kept_pending = refl;
          kept_finals = refl;
        })
        (Kept-trans _ _ _ (model_says_speech-Kept score _) (note_speech-Kept pcm _ _)))

  close_turn-audio :
      (now cut : ℕ) (s : Intake)
      → audio (close_turn cfg now cut s).1 ++ (close_turn cfg now cut s).0.buf ≡ s.buf
  unfolding close_turn audio
  close_turn-audio now cut s = rw append-nil (take-append-drop cut s.buf)

  -- The ways that a push ends, to prove something of them all.
  pub schedule-induct :
      (P : Intake × List Job → Type 0) (now : ℕ) (s : Intake)
      → (cfg.max_segment_bytes ≤ length s.buf
          → P (close_turn cfg now (quietest_cut cfg.energy s.buf) s))
      → (s.has_speech ≡ true
          → cfg.silence_bytes ≤ s.trailing_silence
          → P (close_turn cfg now (length s.buf) s))
      → (length s.buf < cfg.max_segment_bytes → P (s, []))
      → (length s.buf < cfg.max_segment_bytes
          → s.has_speech ≡ true
          → s.partial_pending ≡ false
          → P (
            record s { since_partial = 0; partial_pending = true },
            partial (partial_audio cfg s) now ∷ [],
          ))
      → P (schedule cfg now s)
  unfolding schedule
  schedule-induct P now s cap silence waits asks = ground arith

  close_turn-carry : (now cut : ℕ) (s : Intake) → (close_turn cfg now cut s).0.carry ≡ s.carry
  unfolding close_turn
  close_turn-carry now cut s = refl

  schedule-audio :
      (now : ℕ) (s : Intake)
      → audio (schedule cfg now s).1 ++ ((schedule cfg now s).0.buf ++ (schedule cfg now s).0.carry)
        ≡ s.buf ++ s.carry
  unfolding audio
  schedule-audio now s =
      schedule-induct (λ r. audio r.1 ++ (r.0.buf ++ r.0.carry) ≡ s.buf ++ s.carry) now s
        (λ _. rw (close_turn-carry, ← append_assoc, close_turn-audio) refl)
        (λ _ _. rw (close_turn-carry, ← append_assoc, close_turn-audio) refl) (λ _. refl)
        (λ _ _ _. refl)

  accept-audio :
      (now : ℕ) (samples carry : Bytes) (score : Option ℕ) (s : Intake)
      → audio (accept cfg now samples carry score s).1
          ++ ((accept cfg now samples carry score s).0.buf
              ++ (accept cfg now samples carry score s).0.carry)
        ≡ s.buf ++ (samples ++ carry)
  unfolding accept audio
  accept-audio now [] carry score s = refl
  accept-audio now (b ∷ bs) carry score s =
      let k = update_vad-Kept (b ∷ bs) score (buffer cfg (b ∷ bs) carry s) in
      schedule-audio now _
      ∙ (ap₂ (◌++◌) k.kept_buf k.kept_carry ∙ append_assoc s.buf (b ∷ bs) carry)

  whole_samples-append :
      (pcm : Bytes) (s : Intake)
      → (whole_samples cfg pcm s).0 ++ (whole_samples cfg pcm s).1 ≡ s.carry ++ pcm
  unfolding whole_samples
  whole_samples-append pcm s = take-append-drop _ (s.carry ++ pcm)

  push-audio :
      (now : ℕ) (pcm : Bytes) (score : Option ℕ) (s : Intake)
      → audio (push cfg now pcm score s).1
          ++ ((push cfg now pcm score s).0.buf ++ (push cfg now pcm score s).0.carry)
        ≡ (s.buf ++ s.carry) ++ pcm
  unfolding push
  push-audio now pcm score s =
      accept-audio now _ _ score s
      ∙ (ap (λ x. s.buf ++ x) (whole_samples-append pcm s) ∙ sym (append_assoc s.buf s.carry pcm))

  -- Over any chunks, the audio of the final decodes, then what is buffered, then the byte carried
  -- over is what was there before, then the chunks: nothing is lost, doubled or moved.
  pub push_all-audio :
      (chunks : List Chunk) (s : Intake)
      → audio (push_all cfg chunks s).1
          ++ ((push_all cfg chunks s).0.buf ++ (push_all cfg chunks s).0.carry)
        ≡ (s.buf ++ s.carry) ++ pushed chunks
  unfolding push_all audio pushed
  push_all-audio [] s = sym (append-nil _)
  push_all-audio ((now, (pcm, score)) ∷ chunks) s =
      let first = push cfg now pcm score s in
      let last = push_all cfg chunks first.0 in
      ap (λ x. x ++ (last.0.buf ++ last.0.carry)) (audio-append first.1 last.1)
      ∙ (append_assoc (audio first.1) (audio last.1) (last.0.buf ++ last.0.carry)
          ∙ (ap (λ x. audio first.1 ++ x) (push_all-audio chunks first.0)
              ∙ (sym (append_assoc (audio first.1) (first.0.buf ++ first.0.carry) (pushed chunks))
                  ∙ (ap (λ x. x ++ pushed chunks) (push-audio now pcm score s)
                      ∙ append_assoc (s.buf ++ s.carry) pcm (pushed chunks)))))
