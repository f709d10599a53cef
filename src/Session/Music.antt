-- ===== src/Session/Music.antt =====
-- api/src/api/session.py: the song run of a session (`_scan_music_once` and what it calls).
use tenir.Prelude.{
  ℕ, suc, ◌+◌, ◌-◌, Bool, true, false, ◌&&◌, not, Option, none, some, List, [], ◌∷◌, ◌++◌, ltb, leb,
  ◌==◌, nat_key, list_key, option_key, if◌then◌else◌,
}
use tenir.Prelude.Text.{Text}

pub record MusicConfig : Type 0 where
  pub min_confidence : ℕ
  pub hold_ms : ℕ
  pub end_tail_ms : ℕ
  pub track_key : Text → Text → Text

-- `MusicMatch`
pub record Match : Type 0 where
  pub artist : Text
  pub title : Text
  pub offset_ms : ℕ
  pub confidence : ℕ
  pub duration_ms : Option ℕ
  pub own_key : Option Text

pub record LyricLine : Type 0 where
  pub line_at_ms : ℕ
  pub line_text : Text

-- The messages `song`, `song.sync` and `song.done`; a song id is its number among the ids of the session.
pub record SongMessage : Type 0 where
  pub song_id : ℕ
  pub song_match : Match
  pub song_at_ms : ℕ
  pub song_offset_ms : ℕ
  pub lines : List LyricLine

pub data SongFrame : Type 0 where
  song : SongMessage → SongFrame
  song_sync : ℕ → ℕ → ℕ → SongFrame
  song_done : ℕ → SongFrame

-- What the scan waits for: nothing, the lyrics of a new run, or the lyrics of the run with that id,
-- with the match, the position in the session and the time of the end of its window.
pub data Lookup : Type 0 where
  no_lookup : Lookup
  opening : Match → Text → ℕ → ℕ → Lookup
  retrying : ℕ → Match → ℕ → ℕ → Lookup

-- `anchor` is `_music_offset_ms` with `_music_offset_monotonic`; the end task holds the time at which
-- it wakes; `frames` are those sent, and `stored` what `add_song` was queued with.
pub record Player : Type 0 where
  pub now_ms : ℕ
  pub music_active : Bool
  pub run_id : Option ℕ
  pub last_run_id : Option ℕ
  pub run_key : Option Text
  pub last_match : Option ℕ
  pub misses : ℕ
  pub pending_key : Option Text
  pub anchor : Option (ℕ × ℕ)
  pub end_ms : Option ℕ
  pub end_task : Option ℕ
  pub lyrics_pending : Bool
  pub live_song : Option SongMessage
  pub next_id : ℕ
  pub lookup : Lookup
  pub frames : List SongFrame
  pub stored : List (ℕ × Match)

-- `_song_position_ms`
abbrev pub song_position_ms : Option (ℕ × ℕ) → ℕ → Option ℕ
song_position_ms none now = none
song_position_ms (some (offset, at)) now = some (offset + (now - at))

-- `_schedule_song_end`; a song past its end ends at once.
abbrev pub wakes_at : Option ℕ → Option ℕ → ℕ → Option ℕ
wakes_at (some end_ms) (some position) now = some (now + (end_ms - position))
wakes_at (some end_ms) none now = none
wakes_at none position now = none

unfoldable pub schedule_song_end : Player → Player
schedule_song_end s = record s {
  end_task = wakes_at s.end_ms (song_position_ms s.anchor s.now_ms) s.now_ms;
}

-- `_anchor_song`
unfoldable pub anchor_song : ℕ → Player → Player
anchor_song offset s = schedule_song_end (record s { anchor = some (offset, s.now_ms) })

abbrev pub say : SongFrame → Player → Player
say f s = record s { frames = s.frames ++ (f ∷ []) }

abbrev pub say_done : Option ℕ → Player → Player
say_done none s = s
say_done (some id) s = say (song_done id) s

-- `_end_music_run`
unfoldable pub end_music_run : Player → Player
end_music_run s =
    if s.music_active
    then say_done s.run_id (record s {
      music_active = false;
      run_id = none;
      run_key = none;
      last_match = none;
      pending_key = none;
      end_task = none;
      anchor = none;
      end_ms = none;
      lyrics_pending = false;
      live_song = none;
    })
    else s

-- `_song_end_expire`, once its sleep is over.
abbrev pub end_due : Option ℕ → ℕ → Bool
end_due none now = false
end_due (some at) now = leb at now

unfoldable pub song_end_expire : Player → Player
song_end_expire s =
    if end_due s.end_task s.now_ms then end_music_run (record s { end_task = none }) else s

module _ (config : MusicConfig) where
  -- `_synced_offset_ms`
  abbrev pub synced_offset_ms : Match → ℕ → Player → ℕ
  synced_offset_ms m window_end s = m.offset_ms + (s.now_ms - window_end)

  -- `_song_end_ms`
  abbrev pub last_line : List LyricLine → Option LyricLine
  last_line [] = none
  last_line (l ∷ []) = some l
  last_line (l ∷ (k ∷ ks)) = last_line (k ∷ ks)

  abbrev pub end_by_lines : Option LyricLine → Option ℕ
  end_by_lines none = none
  end_by_lines (some l) = some (l.line_at_ms + config.end_tail_ms)

  abbrev pub song_end_ms : Option ℕ → List LyricLine → Option ℕ
  song_end_ms none lines = end_by_lines (last_line lines)
  song_end_ms (some duration) lines =
      if ltb 0 duration then some duration else end_by_lines (last_line lines)

  abbrev pub song_of : ℕ → Match → ℕ → ℕ → List LyricLine → SongMessage
  song_of id m at_ms offset lines = record {
    song_id = id;
    song_match = m;
    song_at_ms = at_ms;
    song_offset_ms = offset;
    lines = lines;
  }

  -- `song` with a fresh anchor, for a new run or for the lyrics that a retry found.
  unfoldable pub show_song : ℕ → Match → ℕ → ℕ → List LyricLine → Player → Player
  show_song id m at_ms window_end lines s =
      let offset = synced_offset_ms m window_end s in
      let shown = song_of id m at_ms offset lines in
      say (song shown) (
        anchor_song offset
          (record s { end_ms = song_end_ms m.duration_ms lines; live_song = some shown }))

  -- `_open_music_run` up to the lookup of the lyrics.
  unfoldable pub open_music_run : Match → Text → ℕ → ℕ → Player → Player
  open_music_run m key at_ms window_end s = record (end_music_run s) {
    lookup = opening m key at_ms window_end;
  }

  -- The rest of it; the lookup gives lines, or raised.
  abbrev pub lines_found : Option (List LyricLine) → List LyricLine
  lines_found none = []
  lines_found (some lines) = lines

  abbrev pub lookup_raised : Option (List LyricLine) → Bool
  lookup_raised none = true
  lookup_raised (some lines) = false

  unfoldable pub opened_run : Match → Text → ℕ → ℕ → Option (List LyricLine) → Player → Player
  opened_run m key at_ms window_end answer s =
      show_song s.next_id m at_ms window_end (lines_found answer) (record s {
        lookup = no_lookup;
        lyrics_pending = lookup_raised answer;
        run_id = some s.next_id;
        last_run_id = some s.next_id;
        run_key = some key;
        music_active = true;
        next_id = suc s.next_id;
        stored = s.stored ++ ((s.next_id, m) ∷ []);
      })

  -- The end of `_send_song_sync`.
  abbrev pub sync_run : Option ℕ → Match → ℕ → ℕ → Player → Player
  sync_run none m at_ms window_end s = s
  sync_run (some id) m at_ms window_end s =
      let offset = synced_offset_ms m window_end s in
      say (song_sync id at_ms offset) (anchor_song offset s)

  abbrev pub sync_or_retry : Option ℕ → Match → ℕ → ℕ → Player → Player
  sync_or_retry none m at_ms window_end s = s
  sync_or_retry (some id) m at_ms window_end s =
      if s.lyrics_pending
      then record s { lookup = retrying id m at_ms window_end }
      else sync_run (some id) m at_ms window_end s

  -- `_send_song_sync`
  unfoldable pub send_song_sync : Match → ℕ → ℕ → Player → Player
  send_song_sync m at_ms window_end s = sync_or_retry s.run_id m at_ms window_end s

  -- `_retry_song_lyrics` once its lookup is back, and the rest of `_send_song_sync`.
  abbrev pub retried_lines : ℕ → Match → ℕ → ℕ → List LyricLine → Player → Player
  retried_lines id m at_ms window_end [] s = sync_run s.run_id m at_ms window_end s
  retried_lines id m at_ms window_end (l ∷ ls) s = show_song id m at_ms window_end (l ∷ ls) s

  abbrev pub retried : ℕ → Match → ℕ → ℕ → Option (List LyricLine) → Player → Player
  retried id m at_ms window_end none s = sync_run s.run_id m at_ms window_end s
  retried id m at_ms window_end (some lines) s =
      if s.run_id == some id
      then retried_lines id m at_ms window_end lines (record s { lyrics_pending = false })
      else s

  abbrev pub looked_up : Lookup → Option (List LyricLine) → Player → Player
  looked_up no_lookup answer s = s
  looked_up (opening m key at_ms window_end) answer s = opened_run m key at_ms window_end answer s
  looked_up (retrying id m at_ms window_end) answer s =
      retried id m at_ms window_end answer (record s { lookup = no_lookup })

  unfoldable pub lyrics_return : Option (List LyricLine) → Player → Player
  lyrics_return answer s = looked_up s.lookup answer s

  -- Without the locked song for as long as the hold, the run ends.
  abbrev pub quiet_for : Option ℕ → ℕ → Bool
  quiet_for none now = false
  quiet_for (some last) now = leb config.hold_ms (now - last)

  abbrev pub end_if_quiet : Player → Player
  end_if_quiet s = if quiet_for s.last_match s.now_ms then end_music_run s else s

  unfoldable pub scan_missed : Player → Player
  scan_missed s =
      let s' = record s { misses = suc s.misses } in if s.music_active then end_if_quiet s' else s'

  abbrev pub match_key : Match → Option Text → Text
  match_key m none = config.track_key m.artist m.title
  match_key m (some []) = config.track_key m.artist m.title
  match_key m (some (c ∷ cs)) = c ∷ cs

  -- A scan with a match, by whether its key is that of the run or the pending one.
  unfoldable pub scan_matched : Match → Text → ℕ → ℕ → Player → Player
  scan_matched m key at_ms window_end s =
      if s.music_active && s.run_key == some key
      then send_song_sync m at_ms window_end
          (record s { last_match = some s.now_ms; pending_key = none })
      else if s.music_active && not (s.pending_key == some key)
      then end_if_quiet (record s { pending_key = some key })
      else open_music_run m key at_ms window_end
          (record s { last_match = some s.now_ms; pending_key = none })

  -- `_scan_music_once` from the answer of `identify` on.
  abbrev pub scanned : Option Match → ℕ → ℕ → Player → Player
  scanned none at_ms window_end s = scan_missed s
  scanned (some m) at_ms window_end s =
      if ltb m.confidence config.min_confidence
      then scan_missed s
      else scan_matched m (match_key m m.own_key) at_ms window_end (record s { misses = 0 })

  abbrev pub is_idle : Lookup → Bool
  is_idle no_lookup = true
  is_idle l = false

  -- What can happen, in any order; the scan loop scans again only when the last scan is through.
  pub data MusicEvent : Type 0 where
    time_passes : ℕ → MusicEvent
    identifies : Option Match → ℕ → ℕ → MusicEvent
    looks_up : Option (List LyricLine) → MusicEvent
    song_ends : MusicEvent

  unfoldable pub music_step : MusicEvent → Player → Player
  music_step (time_passes ms) s = record s { now_ms = s.now_ms + ms }
  music_step (identifies answer at_ms window_end) s =
      if is_idle s.lookup then scanned answer at_ms window_end s else s
  music_step (looks_up answer) s = lyrics_return answer s
  music_step song_ends s = song_end_expire s

  unfoldable pub music_run : List MusicEvent → Player → Player
  music_run [] s = s
  music_run (e ∷ es) s = music_run es (music_step e s)
