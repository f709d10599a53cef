-- ===== src/Session/Cues.antt =====
-- api/src/api/session.py: when a session asks for a cue (`_consider_cue` and what it calls).
use tenir.Prelude.{
  ℕ, ◌+◌, ◌-◌, Bool, true, false, ◌||◌, Option, none, some, List, [], ◌∷◌, ◌++◌, ltb, leb, drop,
  length, if◌then◌else◌,
}
use tenir.Prelude.Text.{Text}

-- `attempt_interval_ms()`, `min_interval_ms()` and the size of the window of recent finals.
pub record CueConfig : Type 0 where
  pub attempt_interval_ms : ℕ
  pub min_interval_ms : ℕ
  pub window : ℕ

-- A call of the cue model: when it started, and whether a call, a translation run or a song was
-- under way then or the session closed.
pub record Attempt : Type 0 where
  pub at : ℕ
  pub busy : Bool

-- `clock` is `time.monotonic()`, in milliseconds; the floor timer holds the time at which it fires;
-- the attempts are kept newest first.
pub record CueGate : Type 0 where
  pub clock : ℕ
  pub closed : Bool
  pub translation_active : Bool
  pub music_active : Bool
  pub recent_finals : List Text
  pub cue_inflight : Bool
  pub last_cue : Option ℕ
  pub last_cue_attempt : Option ℕ
  pub cue_held_at_ms : Option ℕ
  pub cue_floor_timer : Option ℕ
  pub cue_missed_at_ms : Option ℕ
  pub attempts : List Attempt

-- A translation run or a song owns the box.
abbrev pub stands_aside : CueGate → Bool
stands_aside s = s.translation_active || s.music_active

-- `_start_cue`
unfoldable pub start_cue : CueGate → CueGate
start_cue s = record s {
  cue_inflight = true;
  last_cue_attempt = some s.clock;
  cue_held_at_ms = none;
  cue_floor_timer = none;
  attempts =
      record { at = s.clock; busy = s.cue_inflight || (s.closed || stands_aside s) } ∷ s.attempts;
}

module _ (config : CueConfig) where
  abbrev pub within_min_interval : Option ℕ → ℕ → Bool
  within_min_interval none now = false
  within_min_interval (some last) now = ltb (now - last) config.min_interval_ms

  -- When the floor since the last attempt lapses, if it has not.
  abbrev pub floor_at : Option ℕ → ℕ → Option ℕ
  floor_at none now = none
  floor_at (some last) now =
      if ltb now (last + config.attempt_interval_ms)
      then some (last + config.attempt_interval_ms)
      else none

  abbrev pub timer_or : ℕ → Option ℕ → Option ℕ
  timer_or at none = some at
  timer_or at (some timer) = some timer

  -- A turn inside the floor waits for it to lapse.
  abbrev pub hold_turn : ℕ → ℕ → CueGate → CueGate
  hold_turn lapses end_ms s = record s {
    cue_held_at_ms = some end_ms;
    cue_floor_timer = timer_or lapses s.cue_floor_timer;
  }

  abbrev pub past_floor : Option ℕ → ℕ → CueGate → CueGate
  past_floor (some lapses) end_ms s = hold_turn lapses end_ms s
  past_floor none end_ms s =
      if s.cue_inflight
      then record s { cue_missed_at_ms = some end_ms }
      else if within_min_interval s.last_cue s.clock
      then s
      else start_cue s

  abbrev pub keep_last : List Text → List Text
  keep_last texts = drop (length texts - config.window) texts

  abbrev pub remember_text : Text → CueGate → CueGate
  remember_text [] s = s
  remember_text (c ∷ cs) s = record s {
    recent_finals = keep_last (s.recent_finals ++ ((c ∷ cs) ∷ []));
  }

  abbrev pub consider_open : ℕ → CueGate → CueGate
  consider_open end_ms s =
      if stands_aside s then s else past_floor (floor_at s.last_cue_attempt s.clock) end_ms s

  -- `_consider_cue`
  unfoldable pub consider_cue : Text → ℕ → CueGate → CueGate
  consider_cue text end_ms s = if s.closed then s else consider_open end_ms (remember_text text s)

  -- `_cue_catch_up`
  abbrev pub catch_up_at : Option ℕ → CueGate → CueGate
  catch_up_at none s = s
  catch_up_at (some at) s =
      if s.closed || stands_aside s
      then s
      else if within_min_interval s.last_cue s.clock
      then s
      else start_cue s

  unfoldable pub cue_catch_up : CueGate → CueGate
  cue_catch_up s = catch_up_at s.cue_missed_at_ms (record s { cue_missed_at_ms = none })

  -- `_cue_floor_lapsed`, of a turn that was held.
  abbrev pub lapsed_with : Option ℕ → CueGate → CueGate
  lapsed_with none s = s
  lapsed_with (some held) s =
      let s' = record s { cue_missed_at_ms = some held } in
      if s.cue_inflight then s' else cue_catch_up s'

  unfoldable pub cue_floor_lapsed : CueGate → CueGate
  cue_floor_lapsed s =
      lapsed_with s.cue_held_at_ms (record s { cue_floor_timer = none; cue_held_at_ms = none })

  -- What `_generate_cue` writes when it shows a cue, which it drops while a run or a song is on.
  unfoldable pub show_cue : CueGate → CueGate
  show_cue s = if stands_aside s then s else record s { last_cue = some s.clock }

  -- The end of `_generate_cue`.
  unfoldable pub generation_ends : CueGate → CueGate
  generation_ends s = cue_catch_up (record s { cue_inflight = false })

  abbrev pub is_due : Option ℕ → ℕ → Bool
  is_due none now = false
  is_due (some at) now = leb at now

  -- What happens to the gate: time passes, a turn ends, the timer fires (not before its time), a call
  -- in flight shows a cue or ends, a run or a song starts or ends, the session closes.
  pub data CueEvent : Type 0 where
    time_passes : ℕ → CueEvent
    turn_ends : Text → ℕ → CueEvent
    timer_fires : CueEvent
    call_shows : CueEvent
    call_ends : CueEvent
    translates : Bool → CueEvent
    plays_music : Bool → CueEvent
    closes : CueEvent

  unfoldable pub gate_step : CueEvent → CueGate → CueGate
  gate_step (time_passes ms) s = record s { clock = s.clock + ms }
  gate_step (turn_ends text end_ms) s = consider_cue text end_ms s
  gate_step timer_fires s = if is_due s.cue_floor_timer s.clock then cue_floor_lapsed s else s
  gate_step call_shows s = if s.cue_inflight then show_cue s else s
  gate_step call_ends s = if s.cue_inflight then generation_ends s else s
  gate_step (translates active) s = record s { translation_active = active }
  gate_step (plays_music active) s = record s { music_active = active }
  gate_step closes s = record s { closed = true }

  unfoldable pub gate_run : List CueEvent → CueGate → CueGate
  gate_run [] s = s
  gate_run (e ∷ es) s = gate_run es (gate_step e s)
