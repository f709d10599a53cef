-- ===== src/Tests/Cues.antt =====
-- Runs of the gate for cues of api/src/api/session.py.
use tenir.Prelude.{◌≡◌, refl, false, none, List, [], ◌∷◌}
use tenir.Prelude.Text.{codes}
use tenir.Session.Cues
use tenir.Session.Cues.{
  CueConfig, CueGate, start_cue, consider_cue, cue_catch_up, cue_floor_lapsed, generation_ends,
  CueEvent, time_passes, timer_fires, call_ends, translates, gate_step, gate_run,
}
use tenir.Session.Gate.{IsGate}
use tenir.Session.Attempts.{gate_run-IsGate}

program : Unit {0}
unfolding start_cue consider_cue cue_catch_up cue_floor_lapsed generation_ends gate_step gate_run
program = tt

abbrev config : CueConfig
config = record { attempt_interval_ms = 15000; min_interval_ms = 30000; window = 4 }

abbrev new_gate : CueGate
new_gate = record {
  clock = 0;
  closed = false;
  translation_active = false;
  music_active = false;
  recent_finals = [];
  cue_inflight = false;
  last_cue = none;
  last_cue_attempt = none;
  cue_held_at_ms = none;
  cue_floor_timer = none;
  cue_missed_at_ms = none;
  attempts = [];
}

-- The second turn is inside the floor: the timer fires while the call is in flight, and the next call
-- starts when that one ends.
abbrev gate_events : List (CueEvent config)
gate_events =
    Cues.turn_ends (codes "a") 10
    ∷ (time_passes 4000
        ∷ (Cues.turn_ends (codes "b") 20
            ∷ (timer_fires
                ∷ (time_passes 11000 ∷ (timer_fires ∷ (time_passes 500 ∷ (call_ends ∷ [])))))))

gate_attempts :
    (gate_run config gate_events new_gate).attempts
    ≡ record { at = 15500; busy = false } ∷ (record { at = 0; busy = false } ∷ [])
unfolding program
gate_attempts = refl

new_gate-IsGate : IsGate config new_gate
new_gate-IsGate = record {
  spaced = tt;
  last = refl;
  alone = tt;
  missed = tt;
  caught = λ e. refl;
  timed = tt;
}

gate_run-IsGate_example : IsGate config (gate_run config gate_events new_gate)
gate_run-IsGate_example = gate_run-IsGate config gate_events new_gate new_gate-IsGate
