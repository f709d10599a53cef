-- ===== src/Session/Drain.antt =====
-- api/src/api/session.py: what a session does with the results of its transcriber (`_drain_results`).
use tenir.Prelude.{
  ℕ, ◌+◌, ◌-◌, Bool, true, false, ◌&&◌, not, List, [], ◌∷◌, ◌++◌, ltb, leb, drop, length,
  if◌then◌else◌,
}
use tenir.Prelude.Text.{Text}
use tenir.Session.Translate.{Final}

abbrev pub stale_final_ms : ℕ
stale_final_ms = 10000

abbrev pub late_final_ms : ℕ
late_final_ms = 4000

abbrev pub caught_up_ms : ℕ
caught_up_ms = 10000

abbrev pub audio_arrivals_max : ℕ
audio_arrivals_max = 6000

-- What the drain does with a result, in order; a status comes with the time at which it is sent.
pub data Effect : Type 0 where
  says_status : ℕ → Bool → Effect
  remembers_final : Final → Effect
  sends_partial : Text → Effect
  sends_final : Final → Effect
  stores_segment : Final → Effect
  touches_hold : Effect
  considers : Final → Effect

-- `arrivals` is `_audio_arrivals`: the session time after each push, with the time of the push.
pub record Drain : Type 0 where
  pub drain_ms : ℕ
  pub arrivals : List (ℕ × ℕ)
  pub captions_delayed : Bool
  pub last_late_final : ℕ
  pub effects : List Effect

-- `on_audio`, as far as it dates the audio.
unfoldable pub date_audio : ℕ → Drain → Drain
date_audio position s =
    let arrivals = s.arrivals ++ ((position, s.drain_ms) ∷ []) in
    record s { arrivals = drop (length arrivals - audio_arrivals_max) arrivals }

-- The loop of `_final_age_s`.
abbrev pub prune : ℕ → List (ℕ × ℕ) → List (ℕ × ℕ)
prune end_ms [] = []
prune end_ms (a ∷ []) = a ∷ []
prune end_ms (a ∷ (b ∷ bs)) =
    let rest = prune end_ms (b ∷ bs) in if ltb a.0 end_ms then rest else a ∷ (b ∷ bs)

abbrev pub last_position : List (ℕ × ℕ) → ℕ
last_position [] = 0
last_position (a ∷ []) = a.0
last_position (a ∷ (b ∷ bs)) = last_position (b ∷ bs)

abbrev pub is_dated : ℕ → List (ℕ × ℕ) → Bool
is_dated end_ms [] = false
is_dated end_ms (a ∷ as') = leb end_ms (last_position (a ∷ as'))

abbrev pub since_first : List (ℕ × ℕ) → ℕ → ℕ
since_first [] now = 0
since_first (a ∷ as') now = now - a.1

-- `_final_age_s`: the age, and the arrivals that it leaves.
unfoldable pub final_age : ℕ → List (ℕ × ℕ) → ℕ → ℕ
final_age end_ms as' now = if is_dated end_ms as' then since_first (prune end_ms as') now else 0

unfoldable pub arrivals_left : ℕ → List (ℕ × ℕ) → List (ℕ × ℕ)
arrivals_left end_ms as' = if is_dated end_ms as' then prune end_ms as' else as'

abbrev pub emit : Effect → Drain → Drain
emit e s = record s { effects = s.effects ++ (e ∷ []) }

-- The end of `_track_caption_lag`.
abbrev pub same_flag : Bool → Bool → Bool
same_flag true b = b
same_flag false b = not b

abbrev pub set_delayed : Bool → Drain → Drain
set_delayed delayed s =
    if same_flag delayed s.captions_delayed
    then s
    else emit (says_status s.drain_ms delayed) (record s { captions_delayed = delayed })

-- `_track_caption_lag`, with whether the transcriber is behind real time.
unfoldable pub track_caption_lag : ℕ → Bool → Drain → Drain
track_caption_lag age behind s =
    if ltb late_final_ms age
    then set_delayed true (record s { last_late_final = s.drain_ms })
    else if s.captions_delayed && (leb caught_up_ms (s.drain_ms - s.last_late_final) && not behind)
    then set_delayed false s
    else s

-- A final that is too old goes to the stored transcript only.
abbrev pub show_final : Bool → Final → Drain → Drain
show_final true final s = emit (stores_segment final) s
show_final false final s =
    emit (considers final)
      (emit (stores_segment final) (emit (sends_final final) (emit (remembers_final final) s)))

unfoldable pub drain_final : Final → Bool → Drain → Drain
drain_final final behind s =
    let age = final_age final.end_ms s.arrivals s.drain_ms in
    show_final (ltb stale_final_ms age) final
      (track_caption_lag age behind (record s { arrivals = arrivals_left final.end_ms s.arrivals }))

abbrev pub drain_partial : Text → Drain → Drain
drain_partial [] s = s
drain_partial (c ∷ cs) s = emit touches_hold (emit (sends_partial (c ∷ cs)) s)

-- Time passes, audio is pushed up to a position, a final or a partial comes.
pub data DrainEvent : Type 0 where
  waits : ℕ → DrainEvent
  pushes : ℕ → DrainEvent
  final_comes : Final → Bool → DrainEvent
  partial_comes : Text → DrainEvent

unfoldable pub drain_step : DrainEvent → Drain → Drain
drain_step (waits ms) s = record s { drain_ms = s.drain_ms + ms }
drain_step (pushes position) s = date_audio position s
drain_step (final_comes final behind) s = drain_final final behind s
drain_step (partial_comes text) s = drain_partial text s

unfoldable pub drain_run : List DrainEvent → Drain → Drain
drain_run [] s = s
drain_run (e ∷ es) s = drain_run es (drain_step e s)
