-- ===== src/Tests/Songs.antt =====
-- Runs of the song runs of api/src/api/session.py.
use tenir.Prelude.{ℕ, ◌≡◌, refl, true, false, Option, none, some, List, [], ◌∷◌, ◌++◌}
use tenir.Prelude.Text.{Text, codes}
use tenir.Session.Music.{
  MusicConfig, Match, SongMessage, song, song_done, no_lookup, Player, schedule_song_end,
  anchor_song, end_music_run, song_end_expire, show_song, open_music_run, opened_run,
  send_song_sync, lyrics_return, scan_missed, scan_matched, MusicEvent, time_passes, identifies,
  looks_up, song_ends, music_step, music_run,
}
use tenir.Session.Songs.{after_frames, IsPlayer}
use tenir.Session.Played.{music_run-IsPlayer}
use tenir.Session.Unheard.{takeover_stays}

program : Unit {0}
unfolding schedule_song_end anchor_song end_music_run song_end_expire show_song open_music_run
    opened_run send_song_sync lyrics_return scan_missed scan_matched music_step music_run
    after_frames
program = tt

abbrev config : MusicConfig
config = record {
  min_confidence = 50;
  hold_ms = 30000;
  end_tail_ms = 5000;
  track_key = λ artist title. artist ++ (0 ∷ title);
}

abbrev track : Text → Option ℕ → Match
track title duration_ms = record {
  artist = codes "a";
  title = title;
  offset_ms = 60000;
  confidence = 90;
  duration_ms = duration_ms;
  own_key = some title;
}

abbrev silent : Player
silent = record {
  now_ms = 1000;
  music_active = false;
  run_id = none;
  last_run_id = none;
  run_key = none;
  last_match = none;
  misses = 0;
  pending_key = none;
  anchor = none;
  end_ms = none;
  end_task = none;
  lyrics_pending = false;
  live_song = none;
  next_id = 0;
  lookup = no_lookup;
  frames = [];
  stored = [];
}

-- The lyrics fail at first and are lines_found at the next scan; the song then ends by its duration.
abbrev evening : List (MusicEvent config)
evening =
    identifies (some (track (codes "x") (some 90000))) 5000 1000
    ∷ (time_passes 400
        ∷ (looks_up none
            ∷ (time_passes 600
                ∷ (identifies (some (track (codes "x") (some 90000))) 6000 2000
                    ∷ (looks_up (some (record { line_at_ms = 7; line_text = codes "la" } ∷ []))
                        ∷ (song_ends ∷ (time_passes 30000 ∷ (song_ends ∷ []))))))))

abbrev id_and_offset : SongMessage → ℕ × ℕ
id_and_offset s = (s.song_id, s.song_offset_ms)

evening_frames :
    (music_run config evening silent).frames
    ≡ song (record {
      song_id = 0;
      song_match = track (codes "x") (some 90000);
      song_at_ms = 5000;
      song_offset_ms = 60400;
      lines = [];
    })
      ∷ (song (record {
        song_id = 0;
        song_match = track (codes "x") (some 90000);
        song_at_ms = 6000;
        song_offset_ms = 60000;
        lines = record { line_at_ms = 7; line_text = codes "la" } ∷ [];
      })
          ∷ (song_done 0 ∷ []))
unfolding program
evening_frames = refl

silent-IsPlayer : IsPlayer silent
unfolding program
silent-IsPlayer = record {
  shown = refl;
  state = record {
    no_run = refl;
    no_end = refl;
    no_anchor = refl;
    no_pending = refl;
    no_song = refl;
  };
  look = tt;
  ids = tt;
}

music_run-IsPlayer_example : IsPlayer (music_run config evening silent)
music_run-IsPlayer_example = music_run-IsPlayer config evening silent silent-IsPlayer

-- A song is on and another track was heard once.
abbrev blended : Player
blended =
    music_run config
      (identifies (some (track (codes "x") (some 90000))) 5000 1000
        ∷ (looks_up (some []) ∷ (identifies (some (track (codes "y") none)) 15000 11000 ∷ [])))
      silent

abbrev nothing_heard : List (MusicEvent config)
nothing_heard = time_passes 86400000 ∷ (identifies none 90000000 86401000 ∷ (song_ends ∷ []))

takeover_stays_example :
    (music_run config
      (identifies (some (track (codes "y") none)) 20000 16000
        ∷ (looks_up (some []) ∷ nothing_heard))
      blended).music_active
    ≡ true
unfolding program
takeover_stays_example =
    takeover_stays config (track (codes "y") none) 20000 16000 blended nothing_heard refl refl refl
      refl refl refl (tt, (tt, (tt, tt)))
