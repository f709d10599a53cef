-- ===== src/Streaming/Timeline.antt =====
-- api/src/api/stt/streaming.py: the times of the turns that a session queues for their final decode.
use tenir.Prelude.{
  ℕ, ltb, ◌&&◌, ◌||◌, ◌⊎◌, inl, inr, by_test, ◌+◌, ◌≤◌, ◌≡◌, refl, sym, subst, ap, ◌∙◌, Option,
  List, [], ◌∷◌, ◌++◌, length, length-take, arith,
}
use tenir.Streaming.Cut.{Bytes, bytes_to_ms}
use tenir.Streaming.Ingest.{
  Config, Job, partial, final, Intake, push, flush, schedule, close_turn, update_vad, accept,
  buffer, Chunk, push_all,
}
use tenir.Streaming.Bounds.{quietest_cut-le}
use tenir.Streaming.Audio.{update_vad-Kept, schedule-induct}

-- The first final starts at `from`, each other one at the end of the one before, the last ends at `to`.
unfoldable pub FollowOn : ℕ → List Job → ℕ → Type 0
FollowOn from [] to = from ≡ to
FollowOn from (partial pcm at ∷ js) to = FollowOn from js to
FollowOn from (final pcm begin speech at ∷ js) to =
    (begin ≡ from) × FollowOn (from + bytes_to_ms (length pcm)) js to

FollowOn-append :
    (js ks : List Job) (a b c : ℕ) → FollowOn a js b → FollowOn b ks c → FollowOn a (js ++ ks) c
unfolding FollowOn
FollowOn-append [] ks a b c h k = subst (λ x. FollowOn x ks c) (sym h) k
FollowOn-append (partial pcm at ∷ js) ks a b c h k = FollowOn-append js ks a b c h k
FollowOn-append (final pcm begin speech at ∷ js) ks a b c h k =
    (h.0, FollowOn-append js ks (a + bytes_to_ms (length pcm)) b c h.1 k)

module _ (cfg : Config) where
  close_turn-FollowOn :
      (now cut : ℕ) (s : Intake)
      → cut ≤ length s.buf
      → FollowOn s.segment_start_ms
          (close_turn cfg now cut s).1
          (close_turn cfg now cut s).0.segment_start_ms
  unfolding close_turn FollowOn
  close_turn-FollowOn now cut s h =
      (refl, ap (λ n. s.segment_start_ms + bytes_to_ms n) (length-take cut s.buf ∙ omega arith))

  schedule-FollowOn :
      (now : ℕ) (s : Intake)
      → FollowOn s.segment_start_ms (schedule cfg now s).1 (schedule cfg now s).0.segment_start_ms
  unfolding FollowOn
  schedule-FollowOn now s =
      schedule-induct cfg (λ r. FollowOn s.segment_start_ms r.1 r.0.segment_start_ms) now s
        (λ _. close_turn-FollowOn now _ s (quietest_cut-le cfg.energy s.buf))
        (λ _ _. close_turn-FollowOn now _ s (omega arith)) (λ _. refl) (λ _ _ _. refl)

  accept-FollowOn :
      (now : ℕ) (samples carry : Bytes) (score : Option ℕ) (s : Intake)
      → FollowOn s.segment_start_ms
          (accept cfg now samples carry score s).1
          (accept cfg now samples carry score s).0.segment_start_ms
  unfolding accept FollowOn
  accept-FollowOn now [] carry score s = refl
  accept-FollowOn now (b ∷ bs) carry score s =
      let judged = update_vad cfg (b ∷ bs) score (buffer cfg (b ∷ bs) carry s) in
      let after = schedule cfg now judged in
      subst (λ t. FollowOn t after.1 after.0.segment_start_ms)
        (update_vad-Kept cfg (b ∷ bs) score (buffer cfg (b ∷ bs) carry s)).kept_start
        (schedule-FollowOn now judged)

  push-FollowOn :
      (now : ℕ) (pcm : Bytes) (score : Option ℕ) (s : Intake)
      → FollowOn s.segment_start_ms
          (push cfg now pcm score s).1
          (push cfg now pcm score s).0.segment_start_ms
  unfolding push
  push-FollowOn now pcm score s = accept-FollowOn now _ _ score s

  flush-FollowOn :
      (now : ℕ) (s : Intake)
      → FollowOn s.segment_start_ms (flush cfg now s).1 (flush cfg now s).0.segment_start_ms
  unfolding flush FollowOn
  flush-FollowOn now s =
      by_test (λ (r : Intake × List Job). FollowOn s.segment_start_ms r.1 r.0.segment_start_ms)
        (ltb 0 (length s.buf) && (s.has_speech || s.energy_heard))
        (λ closes. close_turn-FollowOn now (length s.buf) s (omega arith)) (λ waits. refl)

  -- A chunk is pushed, or the session flushes.
  abbrev pub take_in : Chunk ⊎ ℕ → Intake → Intake × List Job
  take_in (inl (now, (pcm, score))) s = push cfg now pcm score s
  take_in (inr now) s = flush cfg now s

  unfoldable pub take_all : List (Chunk ⊎ ℕ) → Intake → Intake × List Job
  take_all [] s = (s, [])
  take_all (i ∷ is) s =
      let (s1, jobs) = take_in i s in let (s2, more) = take_all is s1 in (s2, jobs ++ more)

  take_in-FollowOn :
      (i : Chunk ⊎ ℕ) (s : Intake)
      → FollowOn s.segment_start_ms (take_in i s).1 (take_in i s).0.segment_start_ms
  take_in-FollowOn (inl (now, (pcm, score))) s = push-FollowOn now pcm score s
  take_in-FollowOn (inr now) s = flush-FollowOn now s

  -- Over any pushes and flushes, each turn that is queued for its final decode starts where the one
  -- queued before ends, which is its start and its whole milliseconds, the first at the session's
  -- start; the next turn starts at the end of the last one.
  pub take_all-FollowOn :
      (is : List (Chunk ⊎ ℕ)) (s : Intake)
      → FollowOn s.segment_start_ms (take_all is s).1 (take_all is s).0.segment_start_ms
  unfolding take_all FollowOn
  take_all-FollowOn [] s = refl
  take_all-FollowOn (i ∷ is) s =
      let first = take_in i s in
      FollowOn-append first.1 (take_all is first.0).1 s.segment_start_ms _ _ (take_in-FollowOn i s)
        (take_all-FollowOn is first.0)

  -- The same of pushes alone.
  push_all-FollowOn :
      (chunks : List Chunk) (s : Intake)
      → FollowOn s.segment_start_ms
          (push_all cfg chunks s).1
          (push_all cfg chunks s).0.segment_start_ms
  unfolding push_all FollowOn
  push_all-FollowOn [] s = refl
  push_all-FollowOn ((now, (pcm, score)) ∷ chunks) s =
      let first = push cfg now pcm score s in
      FollowOn-append first.1 (push_all cfg chunks first.0).1 s.segment_start_ms _ _
        (push-FollowOn now pcm score s) (push_all-FollowOn chunks first.0)
