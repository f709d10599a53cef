-- ===== src/Session/Unheard.antt =====
-- api/src/api/session.py: the hold that ends a song run (`_scan_music_once`) after a takeover.
use tenir.Prelude.{
  ℕ, All, suc, ◌≡◌, ◌≢◌, refl, sym, ap, subst, ◌∙◌, Bool, true, false, ◌&&◌, not, Option, none,
  some, List, [], ◌∷◌, ltb, ◌==◌, nat_key, list_key, option_key, if◌then◌else◌, arith, by_test,
}
use tenir.Prelude.Text.{Text}
use tenir.Session.Music.{
  MusicConfig, Match, no_lookup, Player, schedule_song_end, anchor_song, say_done, end_music_run,
  end_due, song_end_expire, show_song, open_music_run, opened_run, lyrics_return, quiet_for,
  scan_missed, match_key, scan_matched, is_idle, MusicEvent, time_passes, identifies, looks_up,
  song_ends, music_step, music_run,
}

-- A run without the time of its last match and without a scheduled end.
record IsEndless (s : Player) : Type 0 where
  active : s.music_active ≡ true
  unmatched : s.last_match ≡ none
  no_end : s.end_task ≡ none

end_music_run-last_match :
    (s : Player) → s.music_active ≡ true → (end_music_run s).last_match ≡ none
unfolding end_music_run
end_music_run-last_match s active = rw (active) (say_done-last_match s.run_id _ refl)
  where
    say_done-last_match :
        (o : Option ℕ) (s : Player) → s.last_match ≡ none → (say_done o s).last_match ≡ none
    say_done-last_match none s e = e
    say_done-last_match (some id) s e = e

not_due : (o : Option ℕ) (now : ℕ) → o ≡ none → end_due o now ≢ true
not_due o now e f = absurd (cc (ap (λ x. end_due x now) e, f))

taken_branch {ℓ} : {A : Type ℓ} (b : Bool) (x y : A) → b ≡ true → (if b then x else y) ≡ x
taken_branch b x y e = rw (e) refl

other_branch {ℓ} : {A : Type ℓ} (b : Bool) (x y : A) → b ≡ false → (if b then x else y) ≡ y
other_branch b x y e = rw (e) refl

module _ (config : MusicConfig) where
  never_quiet : (s : Player) → quiet_for config s.last_match s.now_ms ≡ true → s.last_match ≢ none
  never_quiet s quiet unmatched =
      absurd (cc (ap (λ x. quiet_for config x s.now_ms) unmatched, quiet))

  -- Time passes, a scan finds nothing, the end task wakes.
  abbrev pub IsSilent : MusicEvent config → Type 0
  IsSilent (identifies (some m) at_ms window_end) = false ≡ true
  IsSilent (looks_up answer) = false ≡ true
  IsSilent e = Unit {0}

  scan_missed-IsEndless : (s : Player) → IsEndless s → IsEndless (scan_missed config s)
  unfolding scan_missed
  scan_missed-IsEndless s h =
      let s' = record s { misses = suc s.misses } in
      let h' : IsEndless s' = record {
        active = h.active;
        unmatched = h.unmatched;
        no_end = h.no_end;
      } in
      by_test IsEndless s.music_active
        (λ active.
          by_test IsEndless (quiet_for config s.last_match s.now_ms)
            (λ quiet. absurd (never_quiet s quiet h.unmatched)) (λ recent. h'))
        (λ off. h')

  music_step-IsEndless :
      (e : MusicEvent config) (s : Player)
      → IsSilent e
      → IsEndless s
      → IsEndless (music_step config e s)
  unfolding music_step song_end_expire
  music_step-IsEndless (time_passes ms) s silent h = record {
    active = h.active;
    unmatched = h.unmatched;
    no_end = h.no_end;
  }
  music_step-IsEndless (identifies none at_ms window_end) s silent h =
      by_test IsEndless (is_idle config s.lookup) (λ idle. scan_missed-IsEndless s h) (λ busy. h)
  music_step-IsEndless (identifies (some m) at_ms window_end) s silent h = absurd (cc)
  music_step-IsEndless (looks_up answer) s silent h = absurd (cc)
  music_step-IsEndless song_ends s silent h =
      by_test IsEndless (end_due s.end_task s.now_ms)
        (λ due. absurd (not_due s.end_task s.now_ms h.no_end due)) (λ early. h)

  music_run-IsEndless :
      (es : List (MusicEvent config)) (s : Player)
      → All IsSilent es
      → IsEndless s
      → IsEndless (music_run config es s)
  unfolding music_run
  music_run-IsEndless [] s silent h = h
  music_run-IsEndless (e ∷ es) s silent h =
      music_run-IsEndless es (music_step config e s) silent.1 (music_step-IsEndless e s silent.0 h)

  -- The new run of a track without a duration or lyrics.
  opened_run-IsEndless :
      (m : Match) (key : Text) (at_ms window_end : ℕ) (s : Player)
      → m.duration_ms ≡ none
      → s.last_match ≡ none
      → IsEndless (opened_run config m key at_ms window_end (some []) s)
  unfolding opened_run show_song anchor_song schedule_song_end
  opened_run-IsEndless m key at_ms window_end s short h = record {
    active = refl;
    unmatched = h;
    no_end = rw (short) refl;
  }

  -- What a confident match with the pending key does to a locked song.
  takes_over :
      (m : Match) (key : Text) (at_ms window_end : ℕ) (s : Player)
      → s.music_active ≡ true
      → (s.run_key == some key) ≡ false
      → (s.pending_key == some key) ≡ true
      → scan_matched config m key at_ms window_end s
        ≡ open_music_run config m key at_ms window_end
            (record s { last_match = some s.now_ms; pending_key = none })
  unfolding scan_matched
  takes_over m key at_ms window_end s active other pending =
      let opens =
        open_music_run config m key at_ms window_end
          (record s { last_match = some s.now_ms; pending_key = none }) in
      by_test (λ x. x ≡ opens) (s.music_active && s.run_key == some key)
        (λ locked. absurd (ground (arith, locked, other)))
        (λ differs.
          by_test (λ x. x ≡ opens) (s.music_active && not (s.pending_key == some key))
            (λ first. absurd (ground (arith, first, pending))) (λ again. refl))

  -- A track that takes over from the song that was locked, without a duration or lyrics, is never ended
  -- by the hold: however long the scans find nothing from then on, its run stays on.
  pub takeover_stays :
      (m : Match) (at_ms window_end : ℕ) (s : Player) (es : List (MusicEvent config))
      → s.music_active ≡ true
      → s.lookup ≡ no_lookup
      → ltb m.confidence config.min_confidence ≡ false
      → (s.run_key == some (match_key config m m.own_key)) ≡ false
      → (s.pending_key == some (match_key config m m.own_key)) ≡ true
      → m.duration_ms ≡ none
      → All IsSilent es
      → (music_run config
          (identifies (some m) at_ms window_end ∷ (looks_up (some []) ∷ es))
          s).music_active
        ≡ true
  unfolding music_run music_step scan_matched open_music_run lyrics_return
  takeover_stays m at_ms window_end s es active idle sure other pending short silent =
      let key = match_key config m m.own_key in
      let s₁ = record s { misses = 0 } in
      let s₂ = record s₁ { last_match = some s.now_ms; pending_key = none } in
      let x = open_music_run config m key at_ms window_end s₂ in
      let step : music_step config (identifies (some m) at_ms window_end) s ≡ x =
        taken_branch _ _ _ (ap (is_idle config) idle)
        ∙ other_branch _ _ _ sure
        ∙ takes_over m key at_ms window_end s₁ active other pending in
      subst (λ y. (music_run config (looks_up (some []) ∷ es) y).music_active ≡ true) (sym step)
        (music_run-IsEndless es _ silent (
          opened_run-IsEndless m key at_ms window_end x short
            (end_music_run-last_match s₂ active))).active
