-- ===== src/Session/Statuses.antt =====
-- api/src/api/session.py: what the effects of the drain add up to (`_track_caption_lag`).
use tenir.Prelude.{
  ℕ, ◌+◌, ◌-◌, ◌≤◌, ◌≡◌, refl, sym, ap, ◌∙◌, Bool, true, false, ◌&&◌, not, Option, none, some, List,
  [], ◌∷◌, ◌++◌, ltb, leb, if◌then◌else◌, append_assoc, append-nil, arith, by_test,
}
use tenir.Session.Translate.{Final}
use tenir.Session.Drain.{
  Effect, says_status, remembers_final, sends_partial, sends_final, stores_segment, touches_hold,
  considers, Drain, emit, same_flag, set_delayed, track_caption_lag, show_final, DrainEvent,
  final_comes, caught_up_ms,
}

abbrev pub segment_of : Effect → List Final
segment_of (stores_segment final) = final ∷ []
segment_of e = []

abbrev pub sent_of : Effect → List Final
sent_of (sends_final final) = final ∷ []
sent_of e = []

abbrev pub considered_of : Effect → List Final
considered_of (considers final) = final ∷ []
considered_of e = []

unfoldable pub gather : (Effect → List Final) → List Effect → List Final
gather f [] = []
gather f (e ∷ es) = f e ++ gather f es

gather-snoc :
    (f : Effect → List Final) (es : List Effect) (e : Effect)
    → gather f (es ++ (e ∷ [])) ≡ gather f es ++ f e
unfolding gather
gather-snoc f [] e = append-nil (f e)
gather-snoc f (d ∷ es) e =
    ap (λ x. f d ++ x) (gather-snoc f es e) ∙ sym (append_assoc (f d) (gather f es) (f e))

-- What a client knows of the lag, since when; none in the first place after a status that repeats the
-- one before, or that ends the lag within ten seconds.
abbrev pub after_effect : Effect → Option (Bool × ℕ) → Option (Bool × ℕ)
after_effect e none = none
after_effect (says_status at true) (some (true, since)) = none
after_effect (says_status at true) (some (false, since)) = some (true, at)
after_effect (says_status at false) (some (true, since)) =
    if leb (since + 10000) at then some (false, at) else none
after_effect (says_status at false) (some (false, since)) = none
after_effect (remembers_final final) (some known) = some known
after_effect (sends_partial text) (some known) = some known
after_effect (sends_final final) (some known) = some known
after_effect (stores_segment final) (some known) = some known
after_effect touches_hold (some known) = some known
after_effect (considers final) (some known) = some known

unfoldable pub after_effects : List Effect → Option (Bool × ℕ) → Option (Bool × ℕ)
after_effects [] known = known
after_effects (e ∷ es) known = after_effects es (after_effect e known)

after_effects-snoc :
    (es : List Effect) (e : Effect) (known : Option (Bool × ℕ))
    → after_effects (es ++ (e ∷ [])) known ≡ after_effect e (after_effects es known)
unfolding after_effects
after_effects-snoc [] e known = refl
after_effects-snoc (d ∷ es) e known = after_effects-snoc es e (after_effect d known)

-- The finals stored, sent and considered are those given; the flag is what the statuses say.
pub record IsDrained (finals sent considered : List Final) (s : Drain) : Type 0 where
  pub all_stored : gather segment_of s.effects ≡ finals
  pub all_sent : gather sent_of s.effects ≡ sent
  pub all_considered : gather considered_of s.effects ≡ considered
  pub flag :
      (since : ℕ) × ((after_effects s.effects (some (false, 0)) ≡ some (s.captions_delayed, since))
        × (s.captions_delayed ≡ true → since ≤ s.last_late_final))
  pub late : s.last_late_final ≤ s.drain_ms

-- An effect that is no status.
quiet_effect :
    (e : Effect) (f a c f' a' c' : List Final) (s : Drain)
    → ((known : Bool × ℕ) → after_effect e (some known) ≡ some known)
    → f ++ segment_of e ≡ f'
    → a ++ sent_of e ≡ a'
    → c ++ considered_of e ≡ c'
    → IsDrained f a c s
    → IsDrained f' a' c' (emit e s)
quiet_effect e f a c f' a' c' s quiet ef ea ec h =
    let (since, (known, since_late)) = h.flag in
    record {
      all_stored =
          gather-snoc segment_of s.effects e ∙ ap (λ x. x ++ segment_of e) h.all_stored ∙ ef;
      all_sent = gather-snoc sent_of s.effects e ∙ ap (λ x. x ++ sent_of e) h.all_sent ∙ ea;
      all_considered =
          gather-snoc considered_of s.effects e
          ∙ ap (λ x. x ++ considered_of e) h.all_considered
          ∙ ec;
      flag = (
        since,
        (
          after_effects-snoc s.effects e (some (false, 0))
              ∙ ap (after_effect e) known
              ∙ quiet (s.captions_delayed, since),
          since_late,
        ),
      );
      late = h.late;
    }

module _ (f a c : List Final) where
  -- An effect that concerns no final.
  pub aside :
      (e : Effect) (s : Drain)
      → ((known : Bool × ℕ) → after_effect e (some known) ≡ some known)
      → segment_of e ≡ []
      → sent_of e ≡ []
      → considered_of e ≡ []
      → IsDrained f a c s
      → IsDrained f a c (emit e s)
  aside e s quiet ef ea ec h =
      quiet_effect e f a c f a c s quiet (ap (λ x. f ++ x) ef ∙ append-nil f)
        (ap (λ x. a ++ x) ea ∙ append-nil a) (ap (λ x. c ++ x) ec ∙ append-nil c) h

  pub show_final-IsDrained :
      (stale : Bool) (final : Final) (s : Drain)
      → IsDrained f a c s
      → IsDrained
          (f ++ (final ∷ []))
          (a ++ (if stale then [] else final ∷ []))
          (c ++ (if stale then [] else final ∷ []))
          (show_final stale final s)
  show_final-IsDrained true final s h =
      quiet_effect (stores_segment final) f a c _ _ _ s (λ known. refl) refl refl refl h
  show_final-IsDrained false final s h =
      quiet_effect (considers final) (f ++ (final ∷ [])) (a ++ (final ∷ [])) c _ _ _ _
        (λ known. refl) (append-nil _) (append-nil _) refl
        (quiet_effect (stores_segment final) f (a ++ (final ∷ [])) c _ _ _ _ (λ known. refl) refl
          (append-nil _) (append-nil c)
          (quiet_effect (sends_final final) f a c _ _ _ _ (λ known. refl) (append-nil f) refl
            (append-nil c) (aside (remembers_final final) s (λ known. refl) refl refl refl h)))

  -- A status after which the client knows the new flag.
  status-IsDrained :
      (delayed : Bool) (since : ℕ) (s : Drain)
      → after_effect (says_status s.drain_ms delayed) (after_effects s.effects (some (false, 0)))
        ≡ some (delayed, since)
      → (delayed ≡ true → since ≤ s.last_late_final)
      → IsDrained f a c s
      → IsDrained f a c
          (emit (says_status s.drain_ms delayed) (record s { captions_delayed = delayed }))
  status-IsDrained delayed since s known since_late h = record {
    all_stored =
        gather-snoc segment_of s.effects (says_status s.drain_ms delayed)
        ∙ append-nil _
        ∙ h.all_stored;
    all_sent =
        gather-snoc sent_of s.effects (says_status s.drain_ms delayed) ∙ append-nil _ ∙ h.all_sent;
    all_considered =
        gather-snoc considered_of s.effects (says_status s.drain_ms delayed)
        ∙ append-nil _
        ∙ h.all_considered;
    flag = (
      since,
      (
        after_effects-snoc s.effects (says_status s.drain_ms delayed) (some (false, 0)) ∙ known,
        since_late,
      ),
    );
    late = h.late;
  }

  late_now :
      (s : Drain) → IsDrained f a c s → IsDrained f a c (record s { last_late_final = s.drain_ms })
  late_now s h =
      let (since, (known, since_late)) = h.flag in
      record {
        all_stored = h.all_stored;
        all_sent = h.all_sent;
        all_considered = h.all_considered;
        flag = (since, (known, λ e. omega (arith, since_late e, h.late)));
        late = omega arith;
      }

  set_late-IsDrained :
      (s : Drain)
      → s.last_late_final ≡ s.drain_ms
      → IsDrained f a c s
      → IsDrained f a c (set_delayed true s)
  set_late-IsDrained s now h =
      let (since, (known, since_late)) = h.flag in
      by_test (IsDrained f a c) (same_flag true s.captions_delayed) (λ same. h)
        (λ differs.
          status-IsDrained true s.drain_ms s
            (ap (after_effect (says_status s.drain_ms true))
              (known ∙ ap (λ b. some (b, since)) differs))
            (λ e. omega (arith, now)) h)

  caught_up-IsDrained :
      (s : Drain)
      → s.captions_delayed ≡ true
      → leb caught_up_ms (s.drain_ms - s.last_late_final) ≡ true
      → IsDrained f a c s
      → IsDrained f a c (set_delayed false s)
  caught_up-IsDrained s delayed passed h =
      let (since, (known, since_late)) = h.flag in
      by_test (IsDrained f a c) (same_flag false s.captions_delayed) (λ same. h)
        (λ differs.
          status-IsDrained false s.drain_ms s
            (ap (after_effect (says_status s.drain_ms false))
                (known ∙ ap (λ b. some (b, since)) delayed)
              ∙ rw (long_since since (since_late delayed)) refl)
            (λ e. absurd (cc)) h)
    where
      long_since : (since : ℕ) → since ≤ s.last_late_final → leb (since + 10000) s.drain_ms ≡ true
      long_since since h' = ground (arith, h', passed)

  pub track_caption_lag-IsDrained :
      (age : ℕ) (behind : Bool) (s : Drain)
      → IsDrained f a c s
      → IsDrained f a c (track_caption_lag age behind s)
  unfolding track_caption_lag
  track_caption_lag-IsDrained age behind s h =
      by_test (IsDrained f a c) (ltb 4000 age) (λ old. set_late-IsDrained _ refl (late_now s h))
        (λ young.
          by_test (IsDrained f a c)
            (s.captions_delayed
              && (leb caught_up_ms (s.drain_ms - s.last_late_final) && not behind))
            (λ up. caught_up-IsDrained s (ground (arith, up)) (ground (arith, up)) h) (λ stays. h))

abbrev pub finals_of : DrainEvent → List Final
finals_of (final_comes final behind) = final ∷ []
finals_of e = []

unfoldable pub finals_in : List DrainEvent → List Final
finals_in [] = []
finals_in (e ∷ es) = finals_of e ++ finals_in es
