-- ===== src/Session/Played.antt =====
-- api/src/api/session.py: the song runs of a session over any scans, lookups and ends.
use tenir.Prelude.{
  ℕ, suc, ◌+◌, ◌≡◌, refl, false, ◌&&◌, not, Option, none, some, List, [], ◌∷◌, ltb, ◌==◌, nat_key,
  list_key, option_key, arith, by_test,
}
use tenir.Prelude.Text.{Text}
use tenir.Session.Music.{
  MusicConfig, Match, LyricLine, Lookup, no_lookup, opening, retrying, Player, looked_up,
  lyrics_return, quiet_for, end_if_quiet, scan_missed, match_key, scan_matched, scanned, is_idle,
  MusicEvent, time_passes, identifies, looks_up, song_ends, music_step, music_run,
}
use tenir.Session.Songs.{
  IsLookup, IsPlayer, kept-IsPlayer, pending_off, end_music_run-IsPlayer, song_end_expire-IsPlayer,
}
use tenir.Session.Lookups.{
  send_song_sync-IsPlayer, open_music_run-IsPlayer, opened_run-IsPlayer, retried-IsPlayer,
}

module _ (config : MusicConfig) where
  lyrics_return-IsPlayer :
      (answer : Option (List LyricLine)) (s : Player)
      → IsPlayer s
      → IsPlayer (lyrics_return config answer s)
  unfolding lyrics_return
  lyrics_return-IsPlayer answer s h = looked_up-IsPlayer s.lookup h.look
    where
      looked_up-IsPlayer :
          (l : Lookup) → IsLookup l s.music_active → IsPlayer (looked_up config l answer s)
      looked_up-IsPlayer no_lookup look = h
      looked_up-IsPlayer (opening m key at_ms window_end) look =
          opened_run-IsPlayer config m key at_ms window_end answer s look h
      looked_up-IsPlayer (retrying id m at_ms window_end) look =
          retried-IsPlayer config id m at_ms window_end answer (record s { lookup = no_lookup })
            refl
            (kept-IsPlayer s.now_ms s.last_match s.misses s.pending_key no_lookup s.lyrics_pending s
              (pending_off s.music_active s h.state) tt h)

  -- What a scan notes of a match or a miss.
  noted-IsPlayer :
      (l : Option ℕ) (m : ℕ) (p : Option Text) (s : Player)
      → (s.music_active ≡ false → p ≡ none)
      → IsPlayer s
      → IsPlayer (record s { last_match = l; misses = m; pending_key = p })
  noted-IsPlayer l m p s free h =
      kept-IsPlayer s.now_ms l m p s.lookup s.lyrics_pending s free h.look h

  end_if_quiet-IsPlayer : (s : Player) → IsPlayer s → IsPlayer (end_if_quiet config s)
  end_if_quiet-IsPlayer s h =
      by_test IsPlayer (quiet_for config s.last_match s.now_ms)
        (λ quiet. end_music_run-IsPlayer s h) (λ recent. h)

  scan_missed-IsPlayer : (s : Player) → IsPlayer s → IsPlayer (scan_missed config s)
  unfolding scan_missed
  scan_missed-IsPlayer s h =
      let h' =
        noted-IsPlayer s.last_match (suc s.misses) s.pending_key s
          (pending_off s.music_active s h.state) h in
      by_test IsPlayer s.music_active (λ active. end_if_quiet-IsPlayer _ h') (λ off. h')

  scan_matched-IsPlayer :
      (m : Match) (key : Text) (at_ms window_end : ℕ) (s : Player)
      → IsPlayer s
      → IsPlayer (scan_matched config m key at_ms window_end s)
  unfolding scan_matched
  scan_matched-IsPlayer m key at_ms window_end s h =
      let h' = noted-IsPlayer (some s.now_ms) s.misses none s (λ e. refl) h in
      by_test IsPlayer (s.music_active && s.run_key == some key)
        (λ locked. send_song_sync-IsPlayer config m at_ms window_end _ h')
        (λ differs.
          by_test IsPlayer (s.music_active && not (s.pending_key == some key))
            (λ first. end_if_quiet-IsPlayer _ (
              noted-IsPlayer s.last_match s.misses (some key) s
                (λ off. absurd (ground (arith, first, off))) h))
            (λ opens. open_music_run-IsPlayer config m key at_ms window_end _ h'))

  scanned-IsPlayer :
      (answer : Option Match) (at_ms window_end : ℕ) (s : Player)
      → IsPlayer s
      → IsPlayer (scanned config answer at_ms window_end s)
  scanned-IsPlayer none at_ms window_end s h = scan_missed-IsPlayer s h
  scanned-IsPlayer (some m) at_ms window_end s h =
      by_test IsPlayer (ltb m.confidence config.min_confidence) (λ weak. scan_missed-IsPlayer s h)
        (λ sure.
          scan_matched-IsPlayer m (match_key config m m.own_key) at_ms window_end _ (
            noted-IsPlayer s.last_match 0 s.pending_key s (pending_off s.music_active s h.state) h))

  music_step-IsPlayer :
      (e : MusicEvent config) (s : Player) → IsPlayer s → IsPlayer (music_step config e s)
  unfolding music_step
  music_step-IsPlayer (time_passes ms) s h =
      kept-IsPlayer (s.now_ms + ms) s.last_match s.misses s.pending_key s.lookup s.lyrics_pending s
        (pending_off s.music_active s h.state) h.look h
  music_step-IsPlayer (identifies answer at_ms window_end) s h =
      by_test IsPlayer (is_idle config s.lookup)
        (λ idle. scanned-IsPlayer answer at_ms window_end s h) (λ busy. h)
  music_step-IsPlayer (looks_up answer) s h = lyrics_return-IsPlayer answer s h
  music_step-IsPlayer song_ends s h = song_end_expire-IsPlayer s h

  -- Over any scans, lookups and ends in any order, the frames fit the runs that a client shows: no song
  -- while another one is shown, no sync or done but of the song that is. The run shown is that of the
  -- session, and a run whose end is known has its end scheduled by the last anchor.
  pub music_run-IsPlayer :
      (es : List (MusicEvent config)) (s : Player) → IsPlayer s → IsPlayer (music_run config es s)
  unfolding music_run
  music_run-IsPlayer [] s h = h
  music_run-IsPlayer (e ∷ es) s h =
      music_run-IsPlayer es (music_step config e s) (music_step-IsPlayer e s h)
