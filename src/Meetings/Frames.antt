-- ===== src/Meetings/Frames.antt =====
-- api/src/api/screen/meetings.py: what `MeetingTracker` does with a frame, and the end of a meeting.
use tenir.Prelude.{
  ℕ, ◌+◌, ◌-◌, max, Bool, true, false, ◌&&◌, not, Option, none, some, List, [], ◌∷◌, any, ltb, leb,
  nat_beq, if◌then◌else◌,
}
use tenir.Prelude.Text.{Text}
use tenir.Conversations.Model.{Segment}
use tenir.Meetings.Parts.{CaptionBlock, FullFrame, CaptionMerger, RosterOps}
use tenir.Meetings.Calls.{
  finished, cadence_sent, captions_off_sent, aliases_call, finish_call, feed_call, knows_call,
  over_budget, Result, ok, err, return, get_state, ◌>>=◌, ◌>>◌,
}
use tenir.Meetings.Tracker.{
  Tracker, Meeting, Window, Method, clock, with_tracker, ask, tell, send, store_people, store,
  start_meeting, vouched, same_blocks, meeting_seen_ms, captions_off_ms, captions_off_repeat_ms,
}

module _ {M L R : Type 0} (merger : CaptionMerger M L) (roster : RosterOps R)
    (window : Window) where
  -- Whether a meeting without captions is on screen.
  unfoldable pub captions_missing : ℕ → Tracker M L R → Bool
  captions_missing ts t =
      elim t.seen_ms [ none ↦ false | some seen ↦ leb (ts - seen) meeting_seen_ms ]
      && (elim t.conversation_id [ none ↦ true | some id ↦ false ] && elim t.caption_seen_ms [
        | none ↦ true
        | some caption ↦ ltb meeting_seen_ms (ts - caption)
      ])

  -- `_check_captions_off`, given whether captions are missing: the time to warn next, and whether to
  -- warn now.
  unfoldable pub next_warning : ℕ → Bool → Option ℕ → Option ℕ × Bool
  next_warning ts false at = (none, false)
  next_warning ts true none = (some (ts + captions_off_ms), false)
  next_warning ts true (some at) =
      if leb at ts then (some (ts + captions_off_repeat_ms), true) else (some at, false)

  unfoldable pub captions_off : ℕ → Tracker M L R → Option ℕ × Bool
  captions_off ts t = next_warning ts (captions_missing ts t) t.captions_off_at

  -- Sets the time of the next warning, and sends a warning that is due.
  unfoldable pub warn : ℕ → Option ℕ × Bool → Method merger roster window (Unit {0})
  warn ts (at, due) s =
      let s' = record s { tracker = record s.tracker { captions_off_at = at } } in
      if due then send merger roster window (captions_off_sent ts) s' else (ok tt, s')

  unfoldable pub check_captions_off : ℕ → Method merger roster window (Unit {0})
  check_captions_off ts s = warn ts (captions_off ts s.tracker) s

  unfoldable pub ensure_roster : Method merger roster window R
  ensure_roster s = elim s.tracker.names [
    | some r ↦ (ok r, s)
    | none ↦
        (ask merger roster window aliases_call
            >> (with_tracker merger roster window
                  (λ t. record t { names = some (roster.make window.aliases) })
                >> return (roster.make window.aliases)))
          s
  ]

  abbrev pub add_all : List Text → R → R
  add_all [] r = r
  add_all (n ∷ ns) r = add_all ns (roster.add n r)

  abbrev pub rename_all : List (Text × Text) → M → M
  rename_all [] m = m
  rename_all ((old, new) ∷ ns) m = rename_all ns (merger.rename old new m)

  abbrev pub rename_merging : List (Text × Text) → Option M → Option M
  rename_merging ns none = none
  rename_merging ns (some m) = some (rename_all ns m)

  -- The names of the frame go into the roster, and new readings of old names into the merger.
  unfoldable pub take_names : FullFrame → R → Tracker M L R → Tracker M L R
  take_names frame r t =
      let r' = add_all frame.participants r in
      let r'' = roster.clear_renamed r' in
      record t {
        names = some r'';
        merging = rename_merging (roster.renamed r') t.merging;
        active = elim frame.active_speaker [
          | none ↦ none
          | some [] ↦ none
          | some (c ∷ cs) ↦ roster.match_name (c ∷ cs) r''
        ];
      }

  -- `_store_people` of the open conversation, if there is one.
  unfoldable pub store_open : ℕ → Method merger roster window (Unit {0})
  store_open ts s = elim s.tracker.conversation_id [
    | none ↦ (ok tt, s)
    | some id ↦ store_people merger roster window id ts s
  ]

  abbrev pub see : FullFrame → ℕ → Tracker M L R → Tracker M L R
  see frame ts t = record t { seen_ms = if frame.in_meeting then some ts else t.seen_ms }

  unfoldable pub on_full : FullFrame → ℕ → Method merger roster window (Unit {0})
  on_full frame ts = do
    r ← ensure_roster
    with_tracker merger roster window (take_names frame r)
    store_open ts
    with_tracker merger roster window (see frame ts)
    check_captions_off ts

  -- A crop of Teams without a header that anyone vouches for, while a meeting is on.
  unfoldable pub unvouched : List CaptionBlock → Tracker M L R → Bool
  unvouched blocks t =
      window.is_teams
      && (elim t.merging [ none ↦ false | some m ↦ true ] && not (any vouched blocks))

  unfoldable pub is_stale : List CaptionBlock → Tracker M L R → Bool
  is_stale blocks t =
      window.is_teams && (not (any (λ b. b.has_header) blocks) && same_blocks blocks t.last_blocks)

  -- The merger that a frame is fed to: that of the open meeting, or a fresh one.
  unfoldable pub merger_for : ℕ → Tracker M L R → M
  merger_for ts t = elim t.merging [ none ↦ merger.fresh ts t.ended_lines | some m ↦ m ]

  abbrev pub replaced : M → Option M → Option M
  replaced m none = none
  replaced m (some _) = some m

  -- The tracker once the merger took a frame.
  unfoldable pub fed : List CaptionBlock → ℕ → Bool → M → Tracker M L R → Tracker M L R
  fed blocks ts stale m t = record t {
    merging = replaced m t.merging;
    last_blocks = blocks;
    last_caption_ms = if stale then t.last_caption_ms else ts;
    caption_seen_ms = some ts;
  }

  -- The end of `_on_caption`: a meeting starts with the first new line.
  unfoldable pub keep_lines : ℕ → M → List Segment → Method merger roster window (Unit {0})
  keep_lines ts m segments s = elim s.tracker.conversation_id [
    | some id ↦ store merger roster window id segments s
    | none ↦
        if nat_beq (merger.new_lines m) 0
        then (ok tt, s)
        else (start_meeting merger roster window ts m >>= λ id.
              store merger roster window id segments)
            s
  ]

  unfoldable pub feed_merger : List CaptionBlock → ℕ → Method merger roster window (Unit {0})
  feed_merger blocks ts = do
    s ← get_state
    let grown = merger.feed blocks ts (merger_for ts s.tracker)
    ask merger roster window feed_call
    with_tracker merger roster window (fed blocks ts (is_stale blocks s.tracker) grown.0)
    keep_lines ts grown.0 grown.1

  unfoldable pub feed_known : Bool → List CaptionBlock → ℕ → Method merger roster window (Unit {0})
  feed_known true blocks ts = feed_merger blocks ts
  feed_known false blocks ts = return tt

  -- `_on_caption` of a crop that nobody vouches for.
  unfoldable pub check_known : List CaptionBlock → ℕ → Method merger roster window (Unit {0})
  check_known blocks ts = do
    s ← get_state
    ask merger roster window knows_call
    feed_known (merger.knows_any blocks ts (merger_for ts s.tracker)) blocks ts

  -- `_on_caption`
  unfoldable pub take_caption : List CaptionBlock → ℕ → Method merger roster window (Unit {0})
  take_caption [] ts s = (ok tt, s)
  take_caption (b ∷ bs) ts s =
      if unvouched (b ∷ bs) s.tracker then check_known (b ∷ bs) ts s else feed_merger (b ∷ bs) ts s

  abbrev pub survive_budget : Result (Unit {0}) → Result (Unit {0})
  survive_budget (err over_budget) = ok tt
  survive_budget r = r

  unfoldable pub on_caption : List CaptionBlock → ℕ → Method merger roster window (Unit {0})
  on_caption blocks ts s = let (r, s') = take_caption blocks ts s in (survive_budget r, s')

  unfoldable pub expired : ℕ → Tracker M L R → Bool
  expired now t = elim t.conversation_id [
    | none ↦ false
    | some id ↦ leb (t.last_caption_ms + window.end_ms) now
  ]

  -- The rest of `end` for the open conversation and its merger.
  unfoldable pub close_meeting : Text → M → ℕ → Method merger roster window (Option Text)
  close_meeting id m now = do
    s ← get_state
    let flushed = merger.flush (max now s.tracker.last_ts) m
    with_tracker merger roster window (λ t. record t { merging = some flushed.0 })
    store merger roster window id flushed.1
    ask merger roster window finish_call
    tell merger roster window (finished id)
    with_tracker merger roster window (λ t. record t {
      conversation_id = none;
      ended_lines = merger.recent flushed.0;
      merging = none;
      names = none;
      active = none;
    })
    send merger roster window (cadence_sent false)
    return (some id)

  unfoldable pub end_meeting : ℕ → Method merger roster window (Option Text)
  end_meeting now s = elim s.tracker.conversation_id [
    | none ↦ (ok none, s)
    | some id ↦ elim s.tracker.merging [ none ↦ (ok none, s) | some m ↦ close_meeting id m now s ]
  ]

  -- What reaches a tracker, at a capture time on the client's clock.
  pub data Event : Type 0 where
    full_read : FullFrame → ℕ → Event
    caption_read : List CaptionBlock → ℕ → Event
    ended_at : ℕ → Event

  unfoldable pub clocked :
      ℕ → (ℕ → Method merger roster window (Unit {0})) → Meeting M L R → Meeting M L R
  clocked ts f s = let s' = clock merger roster window ts s in (f s'.tracker.last_ts s').1

  -- What an event leaves, also where it raised.
  unfoldable pub act : Event → Meeting M L R → Meeting M L R
  act (full_read frame ts) s = clocked ts (on_full frame) s
  act (caption_read blocks ts) s = clocked ts (on_caption blocks) s
  act (ended_at now) s = (end_meeting now s).1

  unfoldable pub run : List Event → Meeting M L R → Meeting M L R
  run [] s = s
  run (e ∷ es) s = run es (act e s)
