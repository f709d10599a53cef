-- ===== src/Tests/Session.antt =====
-- Runs of the writes and the audio of a session, of api/src/api/session.py.
use tenir.Prelude.{ℕ, All, ◌≡◌, inl, refl, true, false, none, some, List, [], ◌∷◌, ◌++◌, drop}
use tenir.Prelude.Text.{codes}
use tenir.Session.Writes.{
  Writer, WriterEvent, queues, call_ends, stored, raised, WriteError, operational_error,
  other_error, is_connection_sqlstate, is_database_unavailable, is_retryable_write, store_write,
  call_flush, hold, pop_write, flush_writes, writer_step, writer_run,
}
use tenir.Session.Written.{
  settled, line, queued, IsTended, healthy, writer_run-line, writer_run-IsTended, healthy-stores,
}
use tenir.Session.Retain.{
  Wav, at_rest, Retainer, on_audio, persist_audio, call_returns, call_raises, AudioEvent, hears,
  retains, returns, raises, audio_step, audio_run,
}
use tenir.Session.Retained.{whole_samples_of, IsWav, IsWhole, IsKept, heard_in, audio_run-IsWhole}

program : Unit {0}
unfolding is_connection_sqlstate is_database_unavailable is_retryable_write settled store_write
    call_flush hold pop_write flush_writes writer_step writer_run queued on_audio persist_audio
    call_returns call_raises audio_step audio_run heard_in
program = tt

-- The server cannot be reached, and the conversation's row is gone.
abbrev refused : WriteError
refused = record { error_class = operational_error; sqlstate = none }

abbrev row_gone : WriteError
row_gone = record { error_class = other_error; sqlstate = some (codes "23503") }

abbrev new_writer : Writer ℕ
new_writer = record {
  unsaved_writes = [];
  flushes = [];
  held = false;
  held_by_outage = false;
  row_gone_logged = false;
  calls = [];
}

-- An outage holds the first write; the next one starts a writer, which stores the first, and the
-- second is dropped because its row is gone.
abbrev writes : List (WriterEvent ℕ)
writes =
    queues 7
    ∷ (call_ends (raised refused)
        ∷ (queues 8 ∷ (call_ends stored ∷ (call_ends (raised row_gone) ∷ (queues 9 ∷ [])))))

writes_run : writer_run writes new_writer ≡ record {
  unsaved_writes = 9 ∷ [];
  flushes = true ∷ [];
  held = false;
  held_by_outage = false;
  row_gone_logged = true;
  calls = (7, raised refused) ∷ ((7, stored) ∷ ((8, raised row_gone) ∷ []));
}
unfolding program
writes_run = refl

writer_run-line_example : line (writer_run writes new_writer) ≡ line new_writer ++ queued writes
writer_run-line_example = writer_run-line writes new_writer

writes-IsTended : IsTended (writer_run writes new_writer)
writes-IsTended = writer_run-IsTended writes new_writer (inl refl)

abbrev two_held : Writer ℕ
two_held = record {
  unsaved_writes = 7 ∷ (8 ∷ []);
  flushes = true ∷ [];
  held = true;
  held_by_outage = true;
  row_gone_logged = false;
  calls = [];
}

two_held_stored :
    ((writer_run (healthy 2) two_held).unsaved_writes ≡ [])
    × ((writer_run (healthy 2) two_held).calls ≡ (7, stored) ∷ ((8, stored) ∷ []))
two_held_stored = healthy-stores (7 ∷ (8 ∷ [])) true [] two_held refl refl

-- A container with a header of one byte, which is read back in whole samples.
abbrev one_byte_header : Wav
one_byte_header = record {
  pcm16_to_wav = λ pcm. 82 ∷ pcm;
  wav_to_pcm16 = λ content. whole_samples_of (drop 1 content);
}

one_byte_header-IsWav : IsWav one_byte_header
one_byte_header-IsWav = record { read_back = λ pcm. refl; has_header = λ pcm h. absurd (cc) }

abbrev resumed : Retainer
resumed = record {
  full_audio = [];
  stored_wav = some (82 ∷ (1 ∷ (2 ∷ [])));
  phase = at_rest;
  audio_key_pending = false;
  retain_outage = false;
  revoked = false;
}

-- The first retain fails, the second one stores while more comes in.
abbrev sounds : List AudioEvent
sounds =
    hears (3 ∷ (4 ∷ []))
    ∷ (retains
        ∷ (raises true
            ∷ (retains
                ∷ (hears (5 ∷ (6 ∷ []))
                    ∷ (returns true true ∷ (returns true true ∷ (returns true true ∷ [])))))))

sounds_run : audio_run one_byte_header sounds resumed ≡ record {
  full_audio = 5 ∷ (6 ∷ []);
  stored_wav = some (82 ∷ (1 ∷ (2 ∷ (3 ∷ (4 ∷ [])))));
  phase = at_rest;
  audio_key_pending = false;
  retain_outage = false;
  revoked = false;
}
unfolding program
sounds_run = refl

sounds-IsKept : All (IsKept one_byte_header) sounds
sounds-IsKept = (refl, (tt, (tt, (tt, (refl, (refl, (refl, (refl, tt))))))))

audio_run-IsWhole_example :
    IsWhole one_byte_header
      ((1 ∷ (2 ∷ [])) ++ heard_in one_byte_header sounds)
      (audio_run one_byte_header sounds resumed)
audio_run-IsWhole_example =
    audio_run-IsWhole one_byte_header one_byte_header-IsWav sounds (1 ∷ (2 ∷ [])) resumed
      sounds-IsKept
      (record { live = refl; whole = refl; even_stored = refl; even_buffer = refl; taken = tt })

-- A frame of an odd length: what is stored of it is read back without its last byte, and the next
-- frame is joined to the rest.
abbrev odd_sounds : List AudioEvent
odd_sounds =
    hears (3 ∷ [])
    ∷ (retains
        ∷ (returns true true
            ∷ (returns true true
                ∷ (returns true true
                    ∷ (hears (4 ∷ (5 ∷ []))
                        ∷ (retains ∷ (returns true true ∷ (returns true true ∷ []))))))))

odd_byte_lost :
    (audio_run one_byte_header odd_sounds resumed).stored_wav
    ≡ some (82 ∷ (1 ∷ (2 ∷ (4 ∷ (5 ∷ [])))))
unfolding program
odd_byte_lost = refl
