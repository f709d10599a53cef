-- ===== src/Meetings/Warnings.antt =====
-- api/src/api/screen/meetings.py: the warnings that captions are off, over the checks of full frames.
use tenir.Prelude.{
  ℕ, ◌+◌, ◌≤◌, Bool, true, false, Option, none, some, List, [], ◌∷◌, inl, inr, arith, if◌then◌else◌,
  leb, Bool-cases, leb→le,
}
use tenir.Meetings.Parts.{CaptionMerger, RosterOps}
use tenir.Meetings.Tracker.{Tracker, Window, captions_off_ms}
use tenir.Meetings.Frames.{next_warning, captions_missing, captions_off}

module _ {M L R : Type 0} (merger : CaptionMerger M L) (roster : RosterOps R)
    (window : Window) where
  -- The times of the warnings, over checks of a tracker that may change in between, but for
  -- `captions_off_at`.
  unfoldable pub warnings : Option ℕ → List (ℕ × Tracker M L R) → List ℕ
  warnings at [] = []
  warnings at ((ts, t) ∷ checks) =
      let next = captions_off merger roster window ts (record t { captions_off_at = at }) in
      let rest = warnings next.0 checks in if next.1 then ts ∷ rest else rest

  -- The checks come in the order of their times, from a time on.
  unfoldable pub InOrder : ℕ → List (ℕ × Tracker M L R) → Type 0
  InOrder from [] = Unit {0}
  InOrder from ((ts, t) ∷ checks) = (from ≤ ts) × InOrder ts checks

  -- Each warning is at least the gap after the one before.
  unfoldable pub Spaced : ℕ → ℕ → List ℕ → Type 0
  Spaced gap last [] = Unit {0}
  Spaced gap last (t ∷ ts) = (last + gap ≤ t) × Spaced gap t ts

  -- When the next warning may come.
  abbrev pub Armed : ℕ → Option ℕ → Type 0
  Armed last none = Unit {0}
  Armed last (some at) = last + captions_off_ms ≤ at

  -- What a check leaves, after a warning or without one.
  abbrev Left : ℕ → ℕ → Option ℕ × Bool → Type 0
  Left last ts (at, true) = (last + captions_off_ms ≤ ts) × Armed ts at
  Left last ts (at, false) = Armed last at

  next_warning-Left :
      (last ts : ℕ) (missing : Bool) (at : Option ℕ)
      → last ≤ ts
      → Armed last at
      → Left last ts (next_warning merger roster window ts missing at)
  unfolding next_warning
  next_warning-Left last ts false at h armed = tt
  next_warning-Left last ts true none h armed = omega arith
  next_warning-Left last ts true (some at) h armed = elim (Bool-cases (leb at ts)) [
    | inl due ↦
        let reached = leb→le at ts due in
        rw (due, next_warning) (omega (arith, reached, armed), omega arith)
    | inr early ↦ rw (early, next_warning) armed
  ]

  after_check-Spaced :
      (last ts : ℕ) (next : Option ℕ × Bool) (rest : List ℕ)
      → last ≤ ts
      → Left last ts next
      → ((l : ℕ) → l ≤ ts → Armed l next.0 → Spaced captions_off_ms l rest)
      → Spaced captions_off_ms last (if next.1 then ts ∷ rest else rest)
  unfolding Spaced
  after_check-Spaced last ts (at, true) rest h left k = (left.0, k ts (omega arith) left.1)
  after_check-Spaced last ts (at, false) rest h left k = k last h left

  -- Over checks in the order of their times, warnings come at least two minutes apart, the first one
  -- that long after the last warning before.
  pub warnings-Spaced :
      (last from : ℕ) (at : Option ℕ) (checks : List (ℕ × Tracker M L R))
      → last ≤ from
      → Armed last at
      → InOrder from checks
      → Spaced captions_off_ms last (warnings at checks)
  unfolding warnings InOrder captions_off Spaced
  warnings-Spaced last from at [] h armed order = tt
  warnings-Spaced last from at ((ts, t) ∷ checks) h armed order =
      let later : last ≤ ts = omega (arith, h, order.0) in
      let next =
        next_warning merger roster window ts
          (captions_missing merger roster window ts (record t { captions_off_at = at })) at in
      after_check-Spaced last ts next (warnings next.0 checks) later
        (next_warning-Left last ts _ at later armed)
        (λ l before armed'. warnings-Spaced l ts next.0 checks before armed' order.1)
