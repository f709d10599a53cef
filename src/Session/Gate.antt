-- ===== src/Session/Gate.antt =====
-- api/src/api/session.py: the gate for cues at the start of a call (`_start_cue`).
use tenir.Prelude.{
  ℕ, All, ◌+◌, ◌≤◌, ◌≡◌, refl, sym, subst, Bool, true, false, ◌||◌, Option, none, some, List, [],
  ◌∷◌, ltb, if◌then◌else◌, arith, by_test,
}
use tenir.Session.Cues.{
  CueConfig, Attempt, CueGate, stands_aside, start_cue, floor_at, timer_or, past_floor,
}

module _ (config : CueConfig) where
  -- The floor after an attempt has passed.
  abbrev pub IsPast : Option ℕ → ℕ → Type 0
  IsPast none now = Unit {0}
  IsPast (some last) now = last + config.attempt_interval_ms ≤ now

  -- Each attempt, newest first, comes the interval after the one before.
  abbrev pub IsSpaced : List Attempt → Type 0
  IsSpaced [] = Unit {0}
  IsSpaced (a ∷ []) = Unit {0}
  IsSpaced (a ∷ (b ∷ bs)) = (b.at + config.attempt_interval_ms ≤ a.at) × IsSpaced (b ∷ bs)

  abbrev pub newest : List Attempt → Option ℕ
  newest [] = none
  newest (a ∷ as') = some a.at

  abbrev pub IsMissed : Option ℕ → Option ℕ → ℕ → Type 0
  IsMissed none last now = Unit {0}
  IsMissed (some missed) last now = IsPast last now

  -- A held turn has a timer, which fires when the floor has passed.
  abbrev pub IsTimed : Option ℕ → Option ℕ → Option ℕ → Type 0
  IsTimed none none last = Unit {0}
  IsTimed none (some timer) last = false ≡ true
  IsTimed (some held) none last = false ≡ true
  IsTimed (some held) (some timer) last = IsPast last timer

  pub record IsGate (s : CueGate) : Type 0 where
    pub spaced : IsSpaced s.attempts
    pub last : s.last_cue_attempt ≡ newest s.attempts
    pub alone : All (λ a. a.busy ≡ false) s.attempts
    pub missed : IsMissed s.cue_missed_at_ms s.last_cue_attempt s.clock
    pub caught : s.cue_inflight ≡ false → s.cue_missed_at_ms ≡ none
    pub timed : IsTimed s.cue_held_at_ms s.cue_floor_timer s.last_cue_attempt

  IsSpaced-more :
      (as' : List Attempt) (now : ℕ) (busy : Bool)
      → IsPast (newest as') now
      → IsSpaced as'
      → IsSpaced (record { at = now; busy = busy } ∷ as')
  IsSpaced-more [] now busy past h = tt
  IsSpaced-more (a ∷ as') now busy past h = (past, h)

  -- An attempt at a moment when the floor has passed and nothing else is under way.
  start_cue-IsGate :
      (s : CueGate)
      → s.cue_missed_at_ms ≡ none
      → IsPast s.last_cue_attempt s.clock
      → (s.cue_inflight || (s.closed || stands_aside s)) ≡ false
      → IsGate s
      → IsGate (start_cue s)
  unfolding start_cue
  start_cue-IsGate s caught past idle h = record {
    spaced =
        IsSpaced-more s.attempts s.clock (s.cue_inflight || (s.closed || stands_aside s))
          (subst (λ o. IsPast o s.clock) h.last past) h.spaced;
    last = refl;
    alone = (idle, h.alone);
    missed = subst (λ o. IsMissed o (some s.clock) s.clock) (sym caught) tt;
    caught = λ e. absurd (cc);
    timed = tt;
  }

  abbrev pub FloorIs : Option ℕ → Option ℕ → ℕ → Type 0
  FloorIs none last now = IsPast last now
  FloorIs (some lapses) last now = IsPast last lapses

  pub floor_at-FloorIs : (last : Option ℕ) (now : ℕ) → FloorIs (floor_at config last now) last now
  floor_at-FloorIs none now = tt
  floor_at-FloorIs (some a) now =
      by_test (λ o. FloorIs o (some a) now) (ltb now (a + config.attempt_interval_ms))
        (λ inside. omega arith) (λ after. ground (arith, after))

  hold_turn-IsTimed :
      (held timer last : Option ℕ) (lapses end_ms : ℕ)
      → IsPast last lapses
      → IsTimed held timer last
      → IsTimed (some end_ms) (timer_or config lapses timer) last
  hold_turn-IsTimed none none last lapses end_ms past h = past
  hold_turn-IsTimed (some x) none last lapses end_ms past h = past
  hold_turn-IsTimed none (some t) last lapses end_ms past h = absurd (cc)
  hold_turn-IsTimed (some x) (some t) last lapses end_ms past h = h

  idle :
      (s : CueGate)
      → s.cue_inflight ≡ false
      → s.closed ≡ false
      → stands_aside s ≡ false
      → (s.cue_inflight || (s.closed || stands_aside s)) ≡ false
  idle s e f g = ground (arith, e, f, g)

  pub start_unless-IsGate :
      (b : Bool) (s : CueGate)
      → IsPast s.last_cue_attempt s.clock
      → s.cue_inflight ≡ false
      → s.cue_missed_at_ms ≡ none
      → s.closed ≡ false
      → stands_aside s ≡ false
      → IsGate s
      → IsGate (if b then s else start_cue s)
  start_unless-IsGate b s past free caught open_s aside h =
      by_test IsGate b (λ soon. h)
        (λ late. start_cue-IsGate s caught past (idle s free open_s aside) h)

  pub past_floor-IsGate :
      (o : Option ℕ) (end_ms : ℕ) (s : CueGate)
      → FloorIs o s.last_cue_attempt s.clock
      → s.closed ≡ false
      → stands_aside s ≡ false
      → IsGate s
      → IsGate (past_floor config o end_ms s)
  past_floor-IsGate (some lapses) end_ms s past open_s aside h = record {
    spaced = h.spaced;
    last = h.last;
    alone = h.alone;
    missed = h.missed;
    caught = h.caught;
    timed =
        hold_turn-IsTimed s.cue_held_at_ms s.cue_floor_timer s.last_cue_attempt lapses end_ms past
          h.timed;
  }
  past_floor-IsGate none end_ms s past open_s aside h =
      by_test IsGate s.cue_inflight
        (λ flying. record {
          spaced = h.spaced;
          last = h.last;
          alone = h.alone;
          missed = past;
          caught = λ e. absurd (cc);
          timed = h.timed;
        })
        (λ free. start_unless-IsGate _ s past free (h.caught free) open_s aside h)
