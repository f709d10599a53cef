-- ===== src/Streaming/Pending.antt =====
-- api/src/api/stt/streaming.py: what the jobs of the intake add to `_partial_pending` and
-- `_speech_finals_pending`.
use tenir.Prelude.{
  ℕ, ◌+◌, ◌≡◌, refl, Bool, ◌&&◌, ◌||◌, Option, List, [], ◌∷◌, ◌++◌, length, arith, if◌then◌else◌,
  ltb, Bool-cases, inl, inr,
}
use tenir.Streaming.Cut.{Bytes}
use tenir.Streaming.Ingest.{
  Config, Job, partial, final, Intake, push, flush, schedule, close_turn, accept, buffer,
  update_vad,
}
use tenir.Streaming.Audio.{Kept, update_vad-Kept, schedule-induct}

unfoldable pub partials : List Job → ℕ
partials [] = 0
partials (partial pcm at ∷ js) = 1 + partials js
partials (final pcm from speech at ∷ js) = partials js

unfoldable pub speech_finals : List Job → ℕ
speech_finals [] = 0
speech_finals (partial pcm at ∷ js) = speech_finals js
speech_finals (final pcm from speech at ∷ js) = (if speech then 1 else 0) + speech_finals js

pub counts-append :
    (js ks : List Job)
    → (partials (js ++ ks) ≡ partials js + partials ks)
      × (speech_finals (js ++ ks) ≡ speech_finals js + speech_finals ks)
unfolding partials speech_finals
counts-append [] ks = (omega arith, omega arith)
counts-append (partial pcm at ∷ js) ks =
    let (p, f) = counts-append js ks in (omega arith, omega arith)
counts-append (final pcm from speech at ∷ js) ks =
    let (p, f) = counts-append js ks in (omega arith, omega arith)

abbrev pub bit : Bool → ℕ
bit b = if b then 1 else 0

-- What jobs add to the counts.
pub record Adds (s t : Intake) (js : List Job) : Type 0 where
  pub adds_partials : bit t.partial_pending ≡ bit s.partial_pending + partials js
  pub adds_finals : t.speech_finals_pending ≡ s.speech_finals_pending + speech_finals js

Adds-Kept : (s u t : Intake) (js : List Job) → Kept s u → Adds u t js → Adds s t js
Adds-Kept s u t js k a = ground arith

module _ (cfg : Config) where
  close_turn-Adds :
      (now cut : ℕ) (s : Intake) → Adds s (close_turn cfg now cut s).0 (close_turn cfg now cut s).1
  unfolding close_turn partials speech_finals
  close_turn-Adds now cut s = record { adds_partials = omega arith; adds_finals = omega arith }

  schedule-Adds : (now : ℕ) (s : Intake) → Adds s (schedule cfg now s).0 (schedule cfg now s).1
  unfolding partials speech_finals
  schedule-Adds now s =
      schedule-induct cfg (λ r. Adds s r.0 r.1) now s (λ _. close_turn-Adds now _ s)
        (λ _ _. close_turn-Adds now _ s)
        (λ _. record { adds_partials = omega arith; adds_finals = omega arith })
        (λ _ _ free. record { adds_partials = rw free refl; adds_finals = omega arith })

  accept-Adds :
      (now : ℕ) (samples carry : Bytes) (score : Option ℕ) (s : Intake)
      → Adds s (accept cfg now samples carry score s).0 (accept cfg now samples carry score s).1
  unfolding accept partials speech_finals
  accept-Adds now [] carry score s = record {
    adds_partials = omega arith;
    adds_finals = omega arith;
  }
  accept-Adds now (b ∷ bs) carry score s =
      let heard = buffer cfg (b ∷ bs) carry s in
      let a =
        Adds-Kept heard _ _ _ (update_vad-Kept cfg (b ∷ bs) score heard)
          (schedule-Adds now (update_vad cfg (b ∷ bs) score heard)) in
      record { adds_partials = a.adds_partials; adds_finals = a.adds_finals }

  pub push-Adds :
      (now : ℕ) (pcm : Bytes) (score : Option ℕ) (s : Intake)
      → Adds s (push cfg now pcm score s).0 (push cfg now pcm score s).1
  unfolding push
  push-Adds now pcm score s = accept-Adds now _ _ score s

  pub flush-Adds : (now : ℕ) (s : Intake) → Adds s (flush cfg now s).0 (flush cfg now s).1
  unfolding flush partials speech_finals
  flush-Adds now s = elim (Bool-cases (ltb 0 (length s.buf) && (s.has_speech || s.energy_heard))) [
    | inl closes ↦ rw (closes, flush) (close_turn-Adds now (length s.buf) s)
    | inr waits ↦
        rw (waits, flush) (record { adds_partials = omega arith; adds_finals = omega arith })
  ]
