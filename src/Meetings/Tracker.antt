-- ===== src/Meetings/Tracker.antt =====
-- api/src/api/screen/meetings.py: `MeetingTracker`.
use tenir.Prelude.{
  ℕ, ◌+◌, ◌-◌, max, Bool, true, false, ◌&&◌, ◌||◌, not, Option, none, some, List, [], ◌∷◌, ◌++◌,
  any, keep_if, ◌==◌, list_key, nat_key, option_key, if◌then◌else◌,
}
use tenir.Prelude.Text.{Text}
use tenir.Conversations.Model.{Segment}
use tenir.Meetings.Parts.{CaptionBlock, CaptionMerger, RosterOps}
use tenir.Meetings.Calls.{
  Told, created, added_segment, added_people, cadence_sent, Call, account_call, sweep_call,
  create_call, people_call, segment_call, fault, account_gone, ok, err, Action, return, modify,
  get_state, ◌>>=◌, ◌>>◌,
}

abbrev pub meeting_seen_ms : ℕ
meeting_seen_ms = 600000

abbrev pub captions_off_ms : ℕ
captions_off_ms = 120000

abbrev pub captions_off_repeat_ms : ℕ
captions_off_repeat_ms = 900000

-- The fields of a tracker that change; `attached` is whether `notify` is a socket.
pub record Tracker (M L R : Type 0) : Type 0 where
  pub attached : Bool
  pub names : Option R
  pub active : Option Text
  pub conversation_id : Option Text
  pub merging : Option M
  pub ended_lines : List L
  pub last_caption_ms : ℕ
  pub last_blocks : List CaptionBlock
  pub last_ts : ℕ
  pub seen_ms : Option ℕ
  pub captions_off_at : Option ℕ
  pub caption_seen_ms : Option ℕ
  pub stored_people : List Text
  pub unsaved : List Segment

-- A tracker and the world around it: what was told, and how many calls were made.
pub record Meeting (M L R : Type 0) : Type 0 where
  pub tracker : Tracker M L R
  pub told : List Told
  pub calls : ℕ

-- What does not change, and how the calls turn out, by their number.
pub record Window : Type 0 where
  pub is_teams : Bool
  pub end_ms : ℕ
  pub aliases : List (Text × Text)
  pub fails : Call → ℕ → Bool
  pub account_exists : ℕ → Bool
  pub sweep_pending : ℕ → Bool
  pub new_id : ℕ → Text

abbrev pub vouched : CaptionBlock → Bool
vouched b =
    b.has_header && (elim b.speaker [ none ↦ b.avatar | some n ↦ not (n == []) || b.avatar ])

abbrev pub same_bool : Bool → Bool → Bool
same_bool true b = b
same_bool false b = not b

abbrev pub same_blocks : List CaptionBlock → List CaptionBlock → Bool
same_blocks [] [] = true
same_blocks [] (b ∷ bs) = false
same_blocks (a ∷ as') [] = false
same_blocks (a ∷ as') (b ∷ bs) =
    (a.speaker == b.speaker
      && (same_bool a.has_header b.has_header
          && (a.lines == b.lines && same_bool a.avatar b.avatar)))
    && same_blocks as' bs

module _ {M L R : Type 0} (merger : CaptionMerger M L) (roster : RosterOps R)
    (window : Window) where
  abbrev pub Method : Type 0 → Type 0
  Method A = Action (Meeting M L R) A

  abbrev pub with_tracker : (Tracker M L R → Tracker M L R) → Method (Unit {0})
  with_tracker f = modify (λ s. record s { tracker = f s.tracker })

  -- A call that may raise; what it did is told.
  unfoldable pub ask : Call → Method (Unit {0})
  ask call s = (
    if window.fails call s.calls then err (fault call) else ok tt,
    record s { calls = s.calls + 1 },
  )

  unfoldable pub tell : Told → Method (Unit {0})
  tell t s = (ok tt, record s { told = s.told ++ (t ∷ []) })

  -- `_send`
  unfoldable pub send : Told → Method (Unit {0})
  send t s = if s.tracker.attached then tell t s else (ok tt, s)

  -- `clock`
  unfoldable pub clock : ℕ → Meeting M L R → Meeting M L R
  clock ts s = record s { tracker = record s.tracker { last_ts = max ts s.tracker.last_ts } }

  unfoldable pub missing : List Text → List Text → List Text
  missing stored names = keep_if (λ n. not (any (λ p. p == n) stored)) names

  -- `_store_people`, with the calls it makes once there are new names.
  unfoldable pub store_names : Text → ℕ → List Text → Method (Unit {0})
  store_names id at [] = return tt
  store_names id at (n ∷ ns) = do
    ask people_call
    tell (added_people id (n ∷ ns) at)
    with_tracker (λ t. record t { stored_people = t.stored_people ++ (n ∷ ns) })

  unfoldable pub store_people : Text → ℕ → Method (Unit {0})
  store_people id ts s = elim s.tracker.names [
    | none ↦ (ok tt, s)
    | some r ↦ elim s.tracker.merging [
      | none ↦ (ok tt, s)
      | some m ↦
          store_names id (ts - merger.start_ms m) (missing s.tracker.stored_people (roster.names r))
            s
    ]
  ]

  -- The loop of `_store`.
  unfoldable pub store_loop : Text → List Segment → Method (Unit {0})
  store_loop id [] = return tt
  store_loop id (seg ∷ rest) = do
    ask segment_call
    tell (added_segment id seg)
    with_tracker (λ t. record t { unsaved = rest })
    store_loop id rest

  unfoldable pub store : Text → List Segment → Method (Unit {0})
  store id segments s =
      let unsaved = s.tracker.unsaved ++ segments in
      store_loop id unsaved (record s { tracker = record s.tracker { unsaved = unsaved } })

  unfoldable pub check_account : ℕ → Method (Unit {0})
  check_account n s = if window.account_exists n then (ok tt, s) else (err account_gone, s)

  -- The boot sweep of recordings, if it is still pending.
  unfoldable pub sweep_first : ℕ → Method (Unit {0})
  sweep_first n s = if window.sweep_pending n then ask sweep_call s else (ok tt, s)

  -- The checks of `_start`.
  unfoldable pub prepare : Method (Unit {0})
  prepare = do
    ask account_call
    s ← get_state
    check_account s.calls
    s' ← get_state
    sweep_first s'.calls

  -- `_start`; returns the id.
  unfoldable pub start_meeting : ℕ → M → Method Text
  start_meeting ts m = do
    prepare
    s ← get_state
    let id = window.new_id s.calls
    ask create_call
    tell (created id)
    with_tracker (λ t. record t {
      conversation_id = some id;
      merging = some m;
      unsaved = [];
      stored_people = [];
    })
    store_people id ts
    send (cadence_sent true)
    return id
