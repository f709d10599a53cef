-- ===== src/Tests/Streaming.antt =====
-- Runs of api/src/api/stt/streaming.py.
use tenir.Prelude.{
  ◌⊎◌, inl, inr, map, ℕ, ◌+◌, ◌≡◌, ◌≤◌, ◌<◌, ◌%◌, refl, true, false, none, some, List, [], ◌∷◌,
  ◌++◌, length, arith,
}
use tenir.Streaming.Cut.{
  Bytes, ms_to_bytes, bytes_to_ms, energies, smoothed, sum, argmin_from, twice_median, dip, cut_at,
  frames, quietest_cut,
}
use tenir.Streaming.Ingest.{
  Config, Job, partial, final, Chunk, start, drop_old, track_level, speech_threshold, min_level,
  max_level, model_says_speech, note_speech, update_vad, close_turn, partial_audio, schedule,
  whole_samples, accept, push, push_all, flush,
}
use tenir.Streaming.Worker.{
  Event, chunk, closing, took, ended, opened_session, step, run_events, take_job, begin, end_task,
  note_decode, behind_real_time, coalesce, coalesce_backlog, merge_limit,
}
use tenir.Streaming.Audio.{audio, pushed, push_all-audio}
use tenir.Streaming.Timeline.{FollowOn, take_all, take_all-FollowOn}
use tenir.Streaming.Bounds.{quietest_cut-bounds}
use tenir.Streaming.Buffer.{IsBuffered, push_all-IsBuffered}
use tenir.Streaming.Pending.{partials, speech_finals}
use tenir.Streaming.Accounts.{Accounts, run_events-Accounts}
use tenir.Streaming.Backlog.{IsMerge, coalesce_backlog-IsMerge}

-- A session whose turns close after four quiet bytes or at sixteen bytes; the first byte of a chunk
-- is its level.
abbrev level : Bytes → ℕ
level [] = 0
level (b ∷ bs) = b

abbrev small : Config
small = record {
  partial_bytes = 4;
  partial_window_bytes = 2;
  max_segment_bytes = 16;
  min_segment_bytes = 4;
  silence_bytes = 4;
  silence_rms = 5;
  local_agreement = false;
  vad_adaptive = true;
  vad_window_bytes = 8;
  vad_model_floor_rms = 3;
  rms = level;
  energy = level;
  noise_times = λ n. n + n;
  peak_part = λ n. n;
}

abbrev spoken : List Chunk
spoken =
    (0, (9 ∷ 8 ∷ 7 ∷ [], some 900))
    ∷ (100, (9 ∷ 6 ∷ 6 ∷ [], some 800))
    ∷ (200, (0 ∷ 0 ∷ 0 ∷ 0 ∷ [], none))
    ∷ []

program : Unit {0}
unfolding ms_to_bytes bytes_to_ms energies smoothed sum argmin_from twice_median dip cut_at frames
    quietest_cut start drop_old track_level speech_threshold min_level max_level model_says_speech
    note_speech update_vad close_turn partial_audio schedule whole_samples accept push push_all
    flush opened_session step run_events take_job begin end_task note_decode behind_real_time
    coalesce coalesce_backlog merge_limit audio pushed FollowOn take_all partials speech_finals
program = tt

spoken_jobs :
    (push_all small spoken (start true 500)).1
    ≡ partial (6 ∷ 6 ∷ []) 100
      ∷ final (9 ∷ 8 ∷ 7 ∷ 9 ∷ 6 ∷ 6 ∷ 0 ∷ 0 ∷ 0 ∷ 0 ∷ []) 500 true 200
      ∷ []
unfolding program
spoken_jobs = refl

push_all-audio_example :
    audio (push_all small spoken (start true 500)).1
      ++ ((push_all small spoken (start true 500)).0.buf
          ++ (push_all small spoken (start true 500)).0.carry)
    ≡ ((start true 500).buf ++ (start true 500).carry) ++ pushed spoken
push_all-audio_example = push_all-audio small spoken (start true 500)

-- The chunks, then a flush.
abbrev spoken_then_flushed : List (Chunk ⊎ ℕ)
spoken_then_flushed = map inl spoken ++ (inr 900 ∷ [])

take_all-FollowOn_example :
    FollowOn
      (start true 500).segment_start_ms
      (take_all small spoken_then_flushed (start true 500)).1
      (take_all small spoken_then_flushed (start true 500)).0.segment_start_ms
take_all-FollowOn_example = take_all-FollowOn small spoken_then_flushed (start true 500)

abbrev clip : Bytes
clip = 3 ∷ 1 ∷ 4 ∷ 1 ∷ []

quietest_cut-bounds_example :
    (quietest_cut level clip ≤ length clip)
    × (length clip ≤ quietest_cut level clip + ms_to_bytes 2000)
    × (0 < length clip → 0 < quietest_cut level clip)
    × (length clip % 2 ≡ 0 → quietest_cut level clip % 2 ≡ 0)
quietest_cut-bounds_example = quietest_cut-bounds level clip

start-IsBuffered : IsBuffered small (start true 500)
unfolding program
start-IsBuffered = record { buffered = omega arith; whole = refl; carried = omega arith }

push_all-IsBuffered_example : IsBuffered small (push_all small spoken (start true 500)).0
push_all-IsBuffered_example = push_all-IsBuffered small spoken (start true 500) start-IsBuffered

-- The same chunks, with a worker that is slow.
abbrev slow : List Event
slow =
    chunk 0 (9 ∷ 8 ∷ 7 ∷ []) (some 900)
    ∷ chunk 100 (9 ∷ 6 ∷ 6 ∷ []) (some 800)
    ∷ took 150 none
    ∷ chunk 200 (0 ∷ 0 ∷ 0 ∷ 0 ∷ []) none
    ∷ ended false none
    ∷ took 300 none
    ∷ closing 400
    ∷ []

opened-Accounts : Accounts (opened_session true 500)
unfolding program
opened-Accounts = record { one_partial = refl; finals_due = refl }

run_events-Accounts_example : Accounts (run_events small slow (opened_session true 500))
run_events-Accounts_example =
    run_events-Accounts small slow (opened_session true 500) opened-Accounts

slow_pending : (run_events small slow (opened_session true 500)).intake.speech_finals_pending ≡ 1
unfolding program
slow_pending = refl

abbrev backlog : List Job
backlog = partial clip 10 ∷ final clip 540 false 20 ∷ final clip 541 true 30 ∷ []

coalesce_backlog-IsMerge_example :
    IsMerge (merge_limit (some 8)) clip backlog (coalesce_backlog (some 8) clip backlog)
coalesce_backlog-IsMerge_example = coalesce_backlog-IsMerge (some 8) clip backlog

backlog_left : (coalesce_backlog (some 8) clip backlog).left ≡ final clip 541 true 30 ∷ []
unfolding program
backlog_left = refl

behind_after_three : behind_real_time ((5000, 4000) ∷ (90000, 100) ∷ (4000, 3000) ∷ []) ≡ true
unfolding program
behind_after_three = refl

abbrev one_chunk : List Chunk
one_chunk = (0, (9 ∷ 8 ∷ 7 ∷ [], some 900)) ∷ []

one_chunk_speech : (push_all small one_chunk (start true 500)).0.has_speech ≡ true
unfolding program
one_chunk_speech = refl

one_chunk_buf : 2 ≤ length (push_all small one_chunk (start true 500)).0.buf
unfolding program
one_chunk_buf = omega arith
