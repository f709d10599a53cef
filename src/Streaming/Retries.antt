-- ===== src/Streaming/Retries.antt =====
-- api/src/api/stt/streaming.py: `_decode_final` comes to an end.
use tenir.Prelude.{
  ℕ, zero, suc, ◌+◌, ◌≤◌, ◌≡◌, ◌≢◌, refl, ap, ◌∙◌, leb, leb→le, Bool, true, false, none, some,
  arith, ◌⊎◌, Bool-cases, Option-cases, inl, inr,
}
use tenir.Streaming.Cut.{Bytes}
use tenir.Streaming.Engine.{
  World, Decoder, out_of_fuel, run_engine, upstream_answers, note_outage, spent, retry_sleep,
  once_more, probes, probed, decode_from, decode_final, backoff, final_retry_budget, Stage,
  final_stage, decode_fuel,
}

-- What the sleeps before an attempt take at least.
unfoldable pub slept : ℕ → ℕ
slept zero = 0
slept (suc n) = slept n + backoff n

ap-le : (n m : ℕ) → n ≡ m → slept n ≤ slept m
ap-le n m e = omega (arith, ap slept e)

slept_start : slept 0 ≡ 0
unfolding slept
slept_start = refl

slept_mono : (n m : ℕ) → n ≤ m → slept n ≤ slept m
unfolding slept
slept_mono n zero h = ap-le n zero (omega arith)
slept_mono n (suc m) h = elim (Bool-cases (leb n m)) [
  | inl early ↦ omega (arith, slept_mono n m (leb→le n m early))
  | inr last ↦ ap-le n (suc m) (ground arith)
]

slept-attempt : (n : ℕ) → slept n ≤ final_retry_budget → n ≤ 10
unfolding slept
slept-attempt n h = elim (Bool-cases (leb 11 n)) [
  | inl late ↦ absurd (omega (arith, h, slept_mono 11 n (leb→le 11 n late)))
  | inr early ↦ ground arith
]

-- The sleeps since the outage began are on the clock.
unfoldable pub Waited : ℕ → Decoder → Type 0
Waited attempt s =
    ((s.outage_since ≡ none) × (attempt ≡ 0))
    ⊎ ((since : ℕ) × (s.outage_since ≡ some since) × (since + slept attempt ≤ s.clock))

module _ (world : World) (final_words : Bool) where
  run_engine-fails :
      (stage : Stage) (pcm : Bytes) (pad : ℕ) (want : Bool) (s : Decoder)
      → (run_engine world final_words stage pcm pad want s).1 ≡ none
      → ((run_engine world final_words stage pcm pad want s).0.outage_since ≡ s.outage_since)
        × (s.clock ≤ (run_engine world final_words stage pcm pad want s).0.clock)
  unfolding run_engine
  run_engine-fails stage pcm pad want s e = ground arith

  probe-fails :
      (s : Decoder)
      → (upstream_answers world final_words s).1 ≡ false
      → ((upstream_answers world final_words s).0.outage_since ≡ s.outage_since)
        × (s.clock ≤ (upstream_answers world final_words s).0.clock)
  unfolding upstream_answers
  probe-fails s e = run_engine-fails _ _ _ _ s (ground arith)

  probe_silent :
      (attempt : ℕ) (pcm : Bytes) (s : Decoder)
      → probes attempt (run_engine world final_words final_stage pcm 0 final_words s).0 ≡ true
      → (probed world final_words attempt pcm s).1 ≡ false
      → (upstream_answers world final_words
          (run_engine world final_words final_stage pcm 0 final_words s).0).1
        ≡ false
  unfolding probed
  probe_silent attempt pcm s asks silent = ground arith

  -- What is left of an attempt whose decode raised and whose probe, if any, was not answered.
  attempt_fails :
      (attempt : ℕ) (pcm : Bytes) (s : Decoder)
      → (run_engine world final_words final_stage pcm 0 final_words s).1 ≡ none
      → (probed world final_words attempt pcm s).1 ≡ false
      → ((probed world final_words attempt pcm s).0.outage_since ≡ s.outage_since)
        × (s.clock ≤ (probed world final_words attempt pcm s).0.clock)
  unfolding probed
  attempt_fails attempt pcm s raised silent =
      let s1 = (run_engine world final_words final_stage pcm 0 final_words s).0 in
      let (same, later) = run_engine-fails final_stage pcm 0 final_words s raised in
      elim (Bool-cases (probes attempt s1)) [
        | inl asks ↦
            let (same', later') = probe-fails s1 (probe_silent attempt pcm s asks silent) in
            rw asks (same' ∙ same, omega (arith, later, later'))
        | inr quiet ↦ rw quiet (same, later)
      ]

  Waited-retry_sleep :
      (attempt : ℕ) (s s2 : Decoder)
      → s2.outage_since ≡ s.outage_since
      → s.clock ≤ s2.clock
      → Waited attempt s
      → spent (backoff attempt) (note_outage s2) ≡ false
      → Waited (suc attempt) (retry_sleep world final_words (backoff attempt) (note_outage s2))
        × (suc attempt ≤ 10)
  unfolding Waited note_outage spent retry_sleep slept
  Waited-retry_sleep attempt s s2 same later w more =
      grind (arith, slept-attempt (suc attempt), slept_start)

  once_more-ends : (pcm : Bytes) (s : Decoder) → (once_more world final_words pcm s).1 ≢ out_of_fuel
  unfolding once_more
  once_more-ends pcm s = ground arith

  decode_from-ends :
      (fuel attempt : ℕ) (pcm : Bytes) (s : Decoder)
      → fuel + attempt ≡ decode_fuel
      → attempt ≤ 10
      → Waited attempt s
      → (decode_from world final_words fuel attempt pcm s).1 ≢ out_of_fuel
  unfolding decode_from
  decode_from-ends zero attempt pcm s total early w = absurd (omega arith)
  decode_from-ends (suc fuel) attempt pcm s total early w =
      let s2 = (probed world final_words attempt pcm s).0 in
      elim (Option-cases (run_engine world final_words final_stage pcm 0 final_words s).1) [
        | inr (r, answer) ↦ rw (answer, decode_from) (λ e. cc)
        | inl raised ↦
            rw (raised, decode_from)
              (elim (Bool-cases (probed world final_words attempt pcm s).1) [
                | inl up ↦ rw up (once_more-ends pcm s2)
                | inr silent ↦
                    rw silent (elim (Bool-cases (spent (backoff attempt) (note_outage s2))) [
                      | inl over ↦ rw over (λ e. cc)
                      | inr more ↦
                          let (same, later) = attempt_fails attempt pcm s raised silent in
                          let (waited, next) = Waited-retry_sleep attempt s s2 same later w more in
                          rw more (
                            decode_from-ends fuel (suc attempt) pcm
                              (retry_sleep world final_words (backoff attempt) (note_outage s2))
                              (omega arith) next waited)
                    ])
              ])
      ]

  -- Whatever the engine answers and however long it takes, a final decode returns or raises: the
  -- sleeps use up the budget before an eleventh retry. The outage, if any, began before now.
  pub decode_final-ends :
      (pcm : Bytes) (s : Decoder)
      → Waited 0 s
      → (decode_final world final_words pcm s).1 ≢ out_of_fuel
  unfolding decode_final
  decode_final-ends pcm s w = decode_from-ends decode_fuel 0 pcm s refl (omega arith) w
