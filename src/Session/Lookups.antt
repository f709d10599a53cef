-- ===== src/Session/Lookups.antt =====
-- api/src/api/session.py: the song frames after a lookup of lyrics (`_open_music_run`).
use tenir.Prelude.{
  ℕ, All, suc, ◌<◌, ◌≡◌, ◌⊎◌, inl, inr, refl, sym, ap, subst, ◌∙◌, Bool, true, false, Option, none,
  some, List, [], ◌∷◌, ◌==◌, nat_key, list_key, option_key, option_beq_iff, arith, by_test,
  All-append,
}
use tenir.Prelude.Text.{Text}
use tenir.Session.Music.{
  MusicConfig, Match, LyricLine, SongMessage, SongFrame, song, song_sync, no_lookup, opening,
  retrying, Player, schedule_song_end, anchor_song, end_music_run, synced_offset_ms, song_end_ms,
  song_of, show_song, open_music_run, lines_found, opened_run, sync_run, sync_or_retry,
  send_song_sync, retried_lines, retried,
}
use tenir.Session.Songs.{
  after_frame, then_frame, after_frames, after_frames-snoc, id_of, IsState, IsLookup, IsPlayer,
  same_id, timer_at, kept-IsPlayer, pending_off, run-IsOn, end_music_run-IsPlayer,
  end_music_run-music_active,
}

fits_song :
    (sg : SongMessage) (o : Option ℕ)
    → (o ≡ none) ⊎ (o ≡ some sg.song_id)
    → after_frame (song sg) o ≡ some (some sg.song_id)
fits_song sg none h = refl
fits_song sg (some id) (inl e) = absurd (cc)
fits_song sg (some id) (inr e) =
    rw ((nat_key.same_iff id sg.song_id).1 (ground (arith, e))) (ap some e)

off_run : (b : Bool) (s : Player) → b ≡ false → IsState b s → s.run_id ≡ none
off_run false s e h = h.no_run
off_run true s e h = absurd (cc)

module _ (config : MusicConfig) where
  -- The frame of a song fits a client without a run and one that shows it.
  show_song-IsPlayer :
      (id : ℕ) (m : Match) (at_ms window_end : ℕ) (lines : List LyricLine) (s : Player)
      (before : Option ℕ)
      → after_frames s.frames (some none) ≡ some before
      → (before ≡ none) ⊎ (before ≡ some id)
      → s.run_id ≡ some id
      → s.last_run_id ≡ some id
      → id < s.next_id
      → s.music_active ≡ true
      → s.lookup ≡ no_lookup
      → All (λ f. id_of f < s.next_id) s.frames
      → IsPlayer (show_song config id m at_ms window_end lines s)
  unfolding show_song anchor_song schedule_song_end
  show_song-IsPlayer id m at_ms window_end lines s before shown fits run last given active idle
        ids =
      let offset = synced_offset_ms config m window_end s in
      let f : SongFrame = song (song_of config id m at_ms offset lines) in
      record {
        shown =
            after_frames-snoc s.frames f (some none)
            ∙ ap (then_frame f) shown
            ∙ fits_song (song_of config id m at_ms offset lines) before fits
            ∙ ap some (sym run);
        state =
            subst (λ b. IsState b (show_song config id m at_ms window_end lines s)) (sym active)
              (
                id,
                record {
                  run = run;
                  last_run = last;
                  given = given;
                  timer = timer_at (song_end_ms config m.duration_ms lines) offset s.now_ms;
                },
              );
        look = subst (λ l. IsLookup l s.music_active) (sym idle) tt;
        ids = All-append (λ g. id_of g < s.next_id) s.frames (f ∷ []) ids (given, tt);
      }

  sync_run-IsPlayer :
      (o : Option ℕ) (m : Match) (at_ms window_end : ℕ) (s : Player)
      → s.run_id ≡ o
      → IsPlayer s
      → IsPlayer (sync_run config o m at_ms window_end s)
  unfolding anchor_song schedule_song_end
  sync_run-IsPlayer none m at_ms window_end s run h = h
  sync_run-IsPlayer (some id) m at_ms window_end s run h =
      let (on, active) = run-IsOn s.music_active s id h.state run in
      let offset = synced_offset_ms config m window_end s in
      record {
        shown =
            after_frames-snoc s.frames (song_sync id at_ms offset) (some none)
            ∙ ap (then_frame (song_sync id at_ms offset)) (h.shown ∙ ap some run)
            ∙ rw (same_id id) (ap some (sym run));
        state =
            subst (λ b. IsState b (sync_run config (some id) m at_ms window_end s)) (sym active)
              (
                id,
                record {
                  run = run;
                  last_run = on.last_run;
                  given = on.given;
                  timer = timer_at s.end_ms offset s.now_ms;
                },
              );
        look = h.look;
        ids =
            All-append (λ g. id_of g < s.next_id) s.frames (song_sync id at_ms offset ∷ []) h.ids
              (on.given, tt);
      }

  pub send_song_sync-IsPlayer :
      (m : Match) (at_ms window_end : ℕ) (s : Player)
      → IsPlayer s
      → IsPlayer (send_song_sync config m at_ms window_end s)
  unfolding send_song_sync
  send_song_sync-IsPlayer m at_ms window_end s h = sync_or_retry-IsPlayer s.run_id refl
    where
      sync_or_retry-IsPlayer :
          (o : Option ℕ) → s.run_id ≡ o → IsPlayer (sync_or_retry config o m at_ms window_end s)
      sync_or_retry-IsPlayer none run = h
      sync_or_retry-IsPlayer (some id) run =
          by_test IsPlayer s.lyrics_pending
            (λ pending.
              kept-IsPlayer s.now_ms s.last_match s.misses s.pending_key
                (retrying id m at_ms window_end) s.lyrics_pending s
                (pending_off s.music_active s h.state) tt h)
            (λ fetched. sync_run-IsPlayer (some id) m at_ms window_end s run h)

  pub open_music_run-IsPlayer :
      (m : Match) (key : Text) (at_ms window_end : ℕ) (s : Player)
      → IsPlayer s
      → IsPlayer (open_music_run config m key at_ms window_end s)
  unfolding open_music_run
  open_music_run-IsPlayer m key at_ms window_end s h =
      let s' = end_music_run s in
      let h' : IsPlayer s' = end_music_run-IsPlayer s h in
      kept-IsPlayer s'.now_ms s'.last_match s'.misses s'.pending_key
        (opening m key at_ms window_end) s'.lyrics_pending s'
        (pending_off s'.music_active s' h'.state) (end_music_run-music_active s) h'

  pub opened_run-IsPlayer :
      (m : Match) (key : Text) (at_ms window_end : ℕ) (answer : Option (List LyricLine))
      (s : Player)
      → s.music_active ≡ false
      → IsPlayer s
      → IsPlayer (opened_run config m key at_ms window_end answer s)
  unfolding opened_run
  opened_run-IsPlayer m key at_ms window_end answer s off h =
      show_song-IsPlayer s.next_id m at_ms window_end (lines_found config answer) _ s.run_id h.shown
        (inl (off_run s.music_active s off h.state)) refl refl (omega arith) refl refl
        (All-map_ids s.frames h.ids)
    where
      All-map_ids :
          (fs : List SongFrame)
          → All (λ f. id_of f < s.next_id) fs
          → All (λ f. id_of f < suc s.next_id) fs
      All-map_ids [] all = tt
      All-map_ids (f ∷ fs) all = (omega (arith, all.0), All-map_ids fs all.1)

  pub retried-IsPlayer :
      (id : ℕ) (m : Match) (at_ms window_end : ℕ) (answer : Option (List LyricLine)) (s : Player)
      → s.lookup ≡ no_lookup
      → IsPlayer s
      → IsPlayer (retried config id m at_ms window_end answer s)
  retried-IsPlayer id m at_ms window_end none s idle h =
      sync_run-IsPlayer s.run_id m at_ms window_end s refl h
  retried-IsPlayer id m at_ms window_end (some lines) s idle h =
      by_test IsPlayer (s.run_id == some id)
        (λ same. with_lines lines ((option_beq_iff s.run_id (some id)).0 same)) (λ other. h)
    where
      clear : Player
      clear = record s { lyrics_pending = false }

      clear-IsPlayer : IsPlayer clear
      clear-IsPlayer =
          kept-IsPlayer s.now_ms s.last_match s.misses s.pending_key s.lookup false s
            (pending_off s.music_active s h.state) h.look h

      with_lines :
          (lines : List LyricLine)
          → s.run_id ≡ some id
          → IsPlayer (retried_lines config id m at_ms window_end lines clear)
      with_lines [] run = sync_run-IsPlayer s.run_id m at_ms window_end clear refl clear-IsPlayer
      with_lines (l ∷ ls) run =
          let (on, active) = run-IsOn s.music_active s id h.state run in
          show_song-IsPlayer id m at_ms window_end (l ∷ ls) clear s.run_id h.shown (inr run) run
            on.last_run on.given active idle h.ids
