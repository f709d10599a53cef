-- ===== src/Streaming/Quiet.antt =====
-- api/src/api/stt/streaming.py: a decode, with its retries and probes, queues no caption.
use tenir.Prelude.{ℕ, zero, suc, ◌≡◌, inl, inr, refl, Bool, arith, Bool-cases, Option-cases}
use tenir.Streaming.Cut.{Bytes}
use tenir.Streaming.Engine.{
  World, Decoder, Stage, final_stage, run_engine, decode_final, decode_from, probed,
  upstream_answers, note_outage, retry_sleep, once_more, spent, probes, backoff,
}

-- No caption came or went.
pub record Quiet (s t : Decoder) : Type 0 where
  pub same_queue : t.queue ≡ s.queue
  pub same_undelivered : t.finals_undelivered ≡ s.finals_undelivered

pub Quiet-refl : (s : Decoder) → Quiet s s
Quiet-refl s = record { same_queue = refl; same_undelivered = refl }

pub Quiet-trans : (s t u : Decoder) → Quiet s t → Quiet t u → Quiet s u
Quiet-trans s t u h k = ground arith

note_outage-Quiet : (s : Decoder) → Quiet s (note_outage s)
unfolding note_outage
note_outage-Quiet s = ground arith

module _ (world : World) (final_words : Bool) where
  pub run_engine-Quiet :
      (stage : Stage) (pcm : Bytes) (pad : ℕ) (want : Bool) (s : Decoder)
      → Quiet s (run_engine world final_words stage pcm pad want s).0
  unfolding run_engine
  run_engine-Quiet stage pcm pad want s = ground arith

  sleep-Quiet : (delay : ℕ) (s : Decoder) → Quiet s (retry_sleep world final_words delay s)
  unfolding retry_sleep
  sleep-Quiet delay s = record { same_queue = refl; same_undelivered = refl }

  upstream_answers-Quiet : (s : Decoder) → Quiet s (upstream_answers world final_words s).0
  unfolding upstream_answers
  upstream_answers-Quiet s = run_engine-Quiet _ _ _ _ s

  probed-Quiet :
      (attempt : ℕ) (pcm : Bytes) (s : Decoder) → Quiet s (probed world final_words attempt pcm s).0
  unfolding probed
  probed-Quiet attempt pcm s =
      let s1 = (run_engine world final_words final_stage pcm 0 final_words s).0 in
      let first = run_engine-Quiet final_stage pcm 0 final_words s in
      elim (Bool-cases (probes attempt s1)) [
        | inl asks ↦ rw asks (Quiet-trans s s1 _ first (upstream_answers-Quiet s1))
        | inr quiet ↦ rw quiet first
      ]

  decode_from-Quiet :
      (fuel attempt : ℕ) (pcm : Bytes) (s : Decoder)
      → Quiet s (decode_from world final_words fuel attempt pcm s).0
  unfolding decode_from once_more
  decode_from-Quiet zero attempt pcm s = Quiet-refl s
  decode_from-Quiet (suc fuel) attempt pcm s =
      let s2 = (probed world final_words attempt pcm s).0 in
      let asked = probed-Quiet attempt pcm s in
      let noted = Quiet-trans s s2 _ asked (note_outage-Quiet s2) in
      let slept = retry_sleep world final_words (backoff attempt) (note_outage s2) in
      elim (Option-cases (run_engine world final_words final_stage pcm 0 final_words s).1) [
        | inr (r, answer) ↦
            rw (answer, decode_from) (run_engine-Quiet final_stage pcm 0 final_words s)
        | inl raised ↦
            rw (raised, decode_from)
              (elim (Bool-cases (probed world final_words attempt pcm s).1) [
                | inl up ↦
                    rw up
                      (Quiet-trans s s2 _ asked (run_engine-Quiet final_stage pcm 0 final_words s2))
                | inr silent ↦
                    rw silent (elim (Bool-cases (spent (backoff attempt) (note_outage s2))) [
                      | inl over ↦ rw over noted
                      | inr more ↦ rw more (
                          Quiet-trans s slept _
                            (Quiet-trans s _ slept noted
                              (sleep-Quiet (backoff attempt) (note_outage s2)))
                            (decode_from-Quiet fuel (suc attempt) pcm slept))
                    ])
              ])
      ]

  pub decode_final-Quiet :
      (pcm : Bytes) (s : Decoder) → Quiet s (decode_final world final_words pcm s).0
  unfolding decode_final
  decode_final-Quiet pcm s = decode_from-Quiet _ 0 pcm s
