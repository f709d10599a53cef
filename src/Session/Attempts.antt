-- ===== src/Session/Attempts.antt =====
-- api/src/api/session.py: how often a session asks for a cue.
use tenir.Prelude.{
  ℕ, ◌+◌, ◌≡◌, refl, ◌∙◌, Bool, true, false, ◌||◌, Option, none, some, List, [], ◌∷◌, leb→le, arith,
  by_test,
}
use tenir.Prelude.Text.{Text}
use tenir.Session.Cues.{
  CueConfig, CueGate, stands_aside, remember_text, consider_cue, catch_up_at, cue_catch_up,
  lapsed_with, cue_floor_lapsed, generation_ends, is_due, CueEvent, time_passes, turn_ends,
  timer_fires, show_cue, call_shows, call_ends, translates, plays_music, closes, gate_step,
  gate_run,
}
use tenir.Session.Gate.{
  IsPast, IsMissed, IsTimed, IsGate, floor_at-FloorIs, start_unless-IsGate, past_floor-IsGate,
}

module _ (config : CueConfig) where
  -- What no attempt depends on.
  aside-IsGate :
      (shut runs plays : Bool) (texts : List Text) (shown : Option ℕ) (s : CueGate)
      → IsGate config s
      → IsGate config (record s {
        closed = shut;
        translation_active = runs;
        music_active = plays;
        recent_finals = texts;
        last_cue = shown;
      })
  aside-IsGate shut runs plays texts shown s h = record {
    spaced = h.spaced;
    last = h.last;
    alone = h.alone;
    missed = h.missed;
    caught = h.caught;
    timed = h.timed;
  }

  remember_text-IsGate :
      (text : Text) (s : CueGate) → IsGate config s → IsGate config (remember_text config text s)
  remember_text-IsGate [] s h = h
  remember_text-IsGate (c ∷ cs) s h =
      aside-IsGate s.closed s.translation_active s.music_active _ s.last_cue s h

  show_cue-IsGate : (s : CueGate) → IsGate config s → IsGate config (show_cue config s)
  unfolding show_cue
  show_cue-IsGate s h =
      by_test (IsGate config) (stands_aside s) (λ drops. h)
        (λ shows.
          aside-IsGate s.closed s.translation_active s.music_active s.recent_finals (some s.clock) s
            h)

  remember_text_closed :
      (text : Text) (s : CueGate) → (remember_text config text s).closed ≡ s.closed
  remember_text_closed [] s = refl
  remember_text_closed (c ∷ cs) s = refl

  consider_cue-IsGate :
      (text : Text) (end_ms : ℕ) (s : CueGate)
      → IsGate config s
      → IsGate config (consider_cue config text end_ms s)
  unfolding consider_cue
  consider_cue-IsGate text end_ms s h =
      let s' = remember_text config text s in
      let h' = remember_text-IsGate text s h in
      by_test (IsGate config) s.closed (λ shut. h)
        (λ open_s.
          by_test (IsGate config) (stands_aside s') (λ aside. h')
            (λ free.
              past_floor-IsGate config _ end_ms s'
                (floor_at-FloorIs config s'.last_cue_attempt s'.clock)
                (remember_text_closed text s ∙ open_s) free h'))

  catch_up_at-IsGate :
      (o : Option ℕ) (s : CueGate)
      → IsMissed config o s.last_cue_attempt s.clock
      → s.cue_inflight ≡ false
      → s.cue_missed_at_ms ≡ none
      → IsGate config s
      → IsGate config (catch_up_at config o s)
  catch_up_at-IsGate none s past free caught h = h
  catch_up_at-IsGate (some at) s past free caught h =
      by_test (IsGate config) (s.closed || stands_aside s) (λ off. h)
        (λ on.
          start_unless-IsGate config _ s past free caught (ground (arith, on)) (ground (arith, on))
            h)

  cue_catch_up-IsGate :
      (s : CueGate)
      → s.cue_inflight ≡ false
      → IsMissed config s.cue_missed_at_ms s.last_cue_attempt s.clock
      → IsGate config (record s { cue_missed_at_ms = none })
      → IsGate config (cue_catch_up config s)
  unfolding cue_catch_up
  cue_catch_up-IsGate s free past h =
      catch_up_at-IsGate s.cue_missed_at_ms (record s { cue_missed_at_ms = none }) past free refl h

  generation_ends-IsGate :
      (s : CueGate) → IsGate config s → IsGate config (generation_ends config s)
  unfolding generation_ends
  generation_ends-IsGate s h = cue_catch_up-IsGate _ refl h.missed (record {
    spaced = h.spaced;
    last = h.last;
    alone = h.alone;
    missed = tt;
    caught = λ e. refl;
    timed = h.timed;
  })

  lapsed_with-IsGate :
      (o : Option ℕ) (s : CueGate)
      → IsPast config s.last_cue_attempt s.clock
      → IsGate config s
      → IsGate config (lapsed_with config o s)
  lapsed_with-IsGate none s past h = h
  lapsed_with-IsGate (some held) s past h =
      by_test (IsGate config) s.cue_inflight
        (λ flying. record {
          spaced = h.spaced;
          last = h.last;
          alone = h.alone;
          missed = past;
          caught = λ e. absurd (cc);
          timed = h.timed;
        })
        (λ free.
          cue_catch_up-IsGate (record s { cue_missed_at_ms = some held }) free past
            (record {
              spaced = h.spaced;
              last = h.last;
              alone = h.alone;
              missed = tt;
              caught = λ e. refl;
              timed = h.timed;
            }))

  due-IsPast :
      (held timer last : Option ℕ) (now : ℕ)
      → is_due config timer now ≡ true
      → IsTimed config held timer last
      → IsPast config last now
  due-IsPast held none last now due h = absurd (cc)
  due-IsPast none (some t) last now due h = absurd (cc)
  due-IsPast (some x) (some t) none now due h = tt
  due-IsPast (some x) (some t) (some a) now due h = omega (arith, h, leb→le t now due)

  IsMissed-later :
      (missed last : Option ℕ) (now ms : ℕ)
      → IsMissed config missed last now
      → IsMissed config missed last (now + ms)
  IsMissed-later none last now ms h = tt
  IsMissed-later (some x) none now ms h = tt
  IsMissed-later (some x) (some a) now ms h = omega (arith, h)

  gate_step-IsGate :
      (e : CueEvent config) (s : CueGate) → IsGate config s → IsGate config (gate_step config e s)
  unfolding gate_step cue_floor_lapsed
  gate_step-IsGate (time_passes ms) s h = record {
    spaced = h.spaced;
    last = h.last;
    alone = h.alone;
    missed = IsMissed-later s.cue_missed_at_ms s.last_cue_attempt s.clock ms h.missed;
    caught = h.caught;
    timed = h.timed;
  }
  gate_step-IsGate (turn_ends text end_ms) s h = consider_cue-IsGate text end_ms s h
  gate_step-IsGate timer_fires s h =
      by_test (IsGate config) (is_due config s.cue_floor_timer s.clock)
        (λ due.
          lapsed_with-IsGate s.cue_held_at_ms _
            (due-IsPast s.cue_held_at_ms s.cue_floor_timer s.last_cue_attempt s.clock due h.timed)
            (record {
              spaced = h.spaced;
              last = h.last;
              alone = h.alone;
              missed = h.missed;
              caught = h.caught;
              timed = tt;
            }))
        (λ early. h)
  gate_step-IsGate call_shows s h =
      by_test (IsGate config) s.cue_inflight (λ flying. show_cue-IsGate s h) (λ free. h)
  gate_step-IsGate call_ends s h =
      by_test (IsGate config) s.cue_inflight (λ flying. generation_ends-IsGate s h) (λ free. h)
  gate_step-IsGate (translates active) s h =
      aside-IsGate s.closed active s.music_active s.recent_finals s.last_cue s h
  gate_step-IsGate (plays_music active) s h =
      aside-IsGate s.closed s.translation_active active s.recent_finals s.last_cue s h
  gate_step-IsGate closes s h =
      aside-IsGate true s.translation_active s.music_active s.recent_finals s.last_cue s h

  -- Over any events, attempts for a cue come the interval apart, each while no other call, run or song
  -- is under way and the session is open, and a turn that the floor holds has a timer.
  pub gate_run-IsGate :
      (es : List (CueEvent config)) (s : CueGate)
      → IsGate config s
      → IsGate config (gate_run config es s)
  unfolding gate_run
  gate_run-IsGate [] s h = h
  gate_run-IsGate (e ∷ es) s h = gate_run-IsGate es (gate_step config e s) (gate_step-IsGate e s h)
