-- ===== src/Streaming/Buffer.antt =====
-- api/src/api/stt/streaming.py: what the buffers of a session hold between two pushes.
use tenir.Prelude.{
  ℕ, ◌+◌, ◌-◌, ◌%◌, ◌≤◌, ◌<◌, ◌≡◌, max, Option, List, [], ◌∷◌, ◌++◌, length, length-append,
  length-drop, length-take, arith,
}
use tenir.Streaming.Cut.{Bytes, ms_to_bytes, cap_cut_search_ms}
use tenir.Streaming.Bounds.{quietest_cut-bounds}
use tenir.Streaming.Ingest.{
  Config, Intake, Chunk, push, push_all, accept, buffer, schedule, close_turn, whole_samples,
}
use tenir.Streaming.Audio.{update_vad-Kept, schedule-induct}

module _ (cfg : Config) where
  -- Whole samples are buffered, and less than a turn at the length cap, or what a cut leaves; less
  -- than a sample is carried over.
  pub record IsBuffered (s : Intake) : Type 0 where
    pub buffered : length s.buf ≤ max cfg.max_segment_bytes (ms_to_bytes cap_cut_search_ms)
    pub whole : length s.buf % 2 ≡ 0
    pub carried : length s.carry ≤ 1

  close_turn-IsBuffered :
      (now cut : ℕ) (s : Intake)
      → length s.buf ≤ cut + ms_to_bytes cap_cut_search_ms
      → cut ≤ length s.buf
      → cut % 2 ≡ 0
      → length s.buf % 2 ≡ 0
      → length s.carry ≤ 1
      → IsBuffered (close_turn cfg now cut s).0
  unfolding close_turn
  close_turn-IsBuffered now cut s tail le even whole carried = record {
    buffered = omega (arith, length-drop cut s.buf);
    whole = omega (arith, length-drop cut s.buf);
    carried = carried;
  }

  schedule-IsBuffered :
      (now : ℕ) (s : Intake)
      → length s.buf % 2 ≡ 0
      → length s.carry ≤ 1
      → IsBuffered (schedule cfg now s).0
  schedule-IsBuffered now s even carried =
      let (le, tail, some_off, cut_even) = quietest_cut-bounds cfg.energy s.buf in
      let kept : length s.buf < cfg.max_segment_bytes → IsBuffered s =
        λ short. record { buffered = omega arith; whole = even; carried = carried } in
      schedule-induct cfg (λ r. IsBuffered r.0) now s
        (λ long. close_turn-IsBuffered now _ s tail le (cut_even even) even carried)
        (λ heard quiet. close_turn-IsBuffered now _ s (omega arith) (omega arith) even even carried)
        kept
        (λ short heard free. record {
          buffered = (kept short).buffered;
          whole = even;
          carried = carried;
        })

  whole_samples-even :
      (pcm : Bytes) (s : Intake)
      → (length (whole_samples cfg pcm s).0 % 2 ≡ 0) × (length (whole_samples cfg pcm s).1 ≤ 1)
  unfolding whole_samples
  whole_samples-even pcm s =
      let all = s.carry ++ pcm in
      let even = length all - length all % 2 in
      (omega (arith, length-take even all), omega (arith, length-drop even all))

  accept-IsBuffered :
      (now : ℕ) (samples carry : Bytes) (score : Option ℕ) (s : Intake)
      → length samples % 2 ≡ 0
      → length carry ≤ 1
      → IsBuffered s
      → IsBuffered (accept cfg now samples carry score s).0
  unfolding accept
  accept-IsBuffered now [] carry score s even one h = record {
    buffered = h.buffered;
    whole = h.whole;
    carried = one;
  }
  accept-IsBuffered now (b ∷ bs) carry score s even one h =
      let k = update_vad-Kept cfg (b ∷ bs) score (buffer cfg (b ∷ bs) carry s) in
      schedule-IsBuffered now _
        (rw k.kept_buf (omega (arith, h.whole, even, length-append s.buf (b ∷ bs))))
        (rw k.kept_carry one)

  push-IsBuffered :
      (now : ℕ) (pcm : Bytes) (score : Option ℕ) (s : Intake)
      → IsBuffered s
      → IsBuffered (push cfg now pcm score s).0
  unfolding push
  push-IsBuffered now pcm score s h =
      let (even, one) = whole_samples-even pcm s in accept-IsBuffered now _ _ score s even one h

  -- Whatever chunks come, the audio that waits for its turn's end is at most the length cap (or the
  -- two seconds that a cut can leave), and is whole samples with less than one carried over.
  pub push_all-IsBuffered :
      (chunks : List Chunk) (s : Intake) → IsBuffered s → IsBuffered (push_all cfg chunks s).0
  unfolding push_all
  push_all-IsBuffered [] s h = h
  push_all-IsBuffered ((now, (pcm, score)) ∷ chunks) s h =
      push_all-IsBuffered chunks (push cfg now pcm score s).0 (push-IsBuffered now pcm score s h)
