-- ===== src/Tests/Meetings.antt =====
-- Runs of the meeting tracker of api/src/api/screen/meetings.py, with a merger that takes each line of
-- a crop as new.
use tenir.Prelude.{
  ℕ, ◌≡◌, ◌≢◌, refl, true, false, Bool, none, some, List, [], ◌∷◌, ◌++◌, map, inl, length, nat_beq,
  arith,
}
use tenir.Prelude.Text.{Text, codes}
use tenir.Conversations.Model.{Segment}
use tenir.Meetings.Parts.{CaptionBlock, FullFrame, CaptionMerger, History, RosterOps}
use tenir.Meetings.Calls.{created, added_segment, Call, people_call, segment_call}
use tenir.Meetings.Tracker.{
  Tracker, Meeting, Window, ask, tell, send, clock, missing, store_names, store_people, store_loop,
  store, check_account, sweep_first, prepare, start_meeting,
}
use tenir.Meetings.Frames.{
  captions_missing, next_warning, captions_off, warn, check_captions_off, ensure_roster, take_names,
  store_open, on_full, unvouched, is_stale, merger_for, fed, keep_lines, feed_merger, feed_known,
  check_known, take_caption, on_caption, expired, close_meeting, end_meeting, Event, full_read,
  caption_read, clocked, act, run,
}
use tenir.Meetings.Filed.{filed_from, filed, for_id, Owes, Sound}
use tenir.Meetings.Closing.{Ended, end_meeting-Ended}
use tenir.Meetings.Logic.{Post}
use tenir.Meetings.Running.{run-Sound}
use tenir.Meetings.Windows.{max_carries, WindowKey, Windows}
use tenir.Meetings.Carried.{IsCapped}
use tenir.Meetings.Warnings.{warnings, InOrder, Spaced, warnings-Spaced}

program : Unit {0}
unfolding ask tell send clock missing store_names store_people store_loop store check_account
    sweep_first prepare start_meeting captions_missing next_warning captions_off warn
    check_captions_off ensure_roster take_names store_open on_full unvouched is_stale merger_for fed
    keep_lines feed_merger feed_known check_known take_caption on_caption expired close_meeting
    end_meeting clocked act run filed_from filed warnings InOrder Spaced
program = tt

abbrev line : Text → Segment
line t = record {
  segment_id = t;
  text = t;
  start_ms = 0;
  end_ms = 0;
  lang = none;
  translation = none;
  speaker = none;
}

abbrev lines_of : List CaptionBlock → List Segment
lines_of [] = []
lines_of (b ∷ bs) = map line b.lines ++ lines_of bs

-- What it found, all of it final at once, and a last line on a flush.
abbrev plain_merger : CaptionMerger (List Segment) Text
plain_merger = record {
  fresh = λ ts ls. [];
  feed = λ blocks ts m. (m ++ lines_of blocks, lines_of blocks);
  knows_any = λ blocks ts m. false;
  flush = λ ts m. (m ++ (line (codes "bye") ∷ []), line (codes "bye") ∷ []);
  rename = λ old new m. m;
  recent = λ m. [];
  new_lines = length;
  start_ms = λ m. 0;
}

abbrev found : History plain_merger
found = record {
  history = λ m. m;
  history_fresh = λ ts ls. refl;
  history_feed = λ blocks ts m. refl;
  history_flush = λ ts m. refl;
  history_rename = λ old new m. refl;
}

abbrev name_list : RosterOps (List Text)
name_list = record {
  make = λ aliases. [];
  add = λ n r. r ++ (n ∷ []);
  match_name = λ n r. some n;
  names = λ r. r;
  renamed = λ r. [];
  clear_renamed = λ r. r;
}

-- The second line's first write fails.
abbrev shaky : Call → ℕ → Bool
shaky segment_call n = nat_beq n 7
shaky call n = false

abbrev teams : Window
teams = record {
  is_teams = true;
  end_ms = 60000;
  aliases = [];
  fails = shaky;
  account_exists = λ n. true;
  sweep_pending = λ n. false;
  new_id = λ n. codes "m-1";
}

abbrev idle : Meeting (List Segment) Text (List Text)
idle = record {
  tracker = record {
    attached = true;
    names = none;
    active = none;
    conversation_id = none;
    merging = none;
    ended_lines = [];
    last_caption_ms = 0;
    last_blocks = [];
    last_ts = 0;
    seen_ms = none;
    captions_off_at = none;
    caption_seen_ms = none;
    stored_people = [];
    unsaved = [];
  };
  told = [];
  calls = 0;
}

abbrev said : Text → CaptionBlock
said t = record { speaker = some (codes "Ana"); has_header = true; lines = t ∷ []; avatar = true }

abbrev frame : FullFrame
frame = record { participants = codes "Ana" ∷ []; active_speaker = none; in_meeting = true }

abbrev meeting_run : List (Event plain_merger name_list teams)
meeting_run =
    full_read frame 1000
    ∷ (caption_read (said (codes "hello") ∷ []) 2000
        ∷ (caption_read (said (codes "there") ∷ []) 3000
            ∷ (caption_read (said (codes "again") ∷ []) 4000 ∷ [])))

-- The id with each line is that of the one meeting.
stored_in_order :
    filed (run plain_merger name_list teams meeting_run idle).told
    ≡ for_id
        (codes "m-1")
        (line (codes "hello") ∷ (line (codes "there") ∷ (line (codes "again") ∷ [])))
unfolding program
stored_in_order = refl

reliable : (n : ℕ) → teams.fails people_call n ≡ false
unfolding program
reliable n = refl

run-Sound_example : Sound found (run plain_merger name_list teams meeting_run idle)
run-Sound_example =
    run-Sound plain_merger name_list teams found reliable meeting_run idle (inl (refl, refl))

-- A meeting with one line, stored.
abbrev open_meeting : Meeting (List Segment) Text (List Text)
open_meeting = record idle {
  tracker = record idle.tracker {
    conversation_id = some (codes "m-1");
    merging = some (line (codes "hello") ∷ []);
    last_ts = 5000;
  };
  told = created (codes "m-1") ∷ (added_segment (codes "m-1") (line (codes "hello")) ∷ []);
}

open_meeting-Owes : Owes found (codes "m-1") (line (codes "hello") ∷ []) [] open_meeting
unfolding program
open_meeting-Owes = (refl, (refl, refl))

end_meeting-Ended_example :
    Post
      (Ended plain_merger name_list teams found
        (codes "m-1")
        (line (codes "hello") ∷ (line (codes "bye") ∷ [])))
      (Sound found)
      (end_meeting plain_merger name_list teams 9000 open_meeting)
end_meeting-Ended_example =
    end_meeting-Ended plain_merger name_list teams found 9000 (codes "m-1")
      (line (codes "hello") ∷ []) open_meeting open_meeting-Owes

-- Full frames once a minute, without captions.
abbrev on_screen : ℕ → ℕ × Tracker (List Segment) Text (List Text)
on_screen ts = (ts, record idle.tracker { seen_ms = some ts })

abbrev checks : List (ℕ × Tracker (List Segment) Text (List Text))
checks = on_screen 1000 ∷ (on_screen 61000 ∷ (on_screen 121000 ∷ (on_screen 181000 ∷ [])))

checks-InOrder : InOrder plain_merger name_list teams 0 checks
unfolding program
checks-InOrder = (omega arith, (omega arith, (omega arith, (omega arith, tt))))

warnings-Spaced_example :
    Spaced plain_merger name_list teams 120000 0 (warnings plain_merger name_list teams none checks)
warnings-Spaced_example =
    warnings-Spaced plain_merger name_list teams 0 0 none checks (omega arith) tt checks-InOrder

warned_once : warnings plain_merger name_list teams none checks ≡ 121000 ∷ []
unfolding program
warned_once = refl

-- The names of a new meeting cannot be stored: its first line is gone, and the next is stored.
abbrev no_names : Window
no_names = record teams { fails = λ call n. nat_beq n 4 }

first_line_lost :
    filed
      (run plain_merger name_list no_names
        (full_read frame 1000
          ∷ (caption_read (said (codes "hello") ∷ []) 2000
              ∷ (caption_read (said (codes "there") ∷ []) 3000 ∷ [])))
        idle).told
    ≡ for_id (codes "m-1") (line (codes "there") ∷ [])
unfolding program
first_line_lost = refl

abbrev home_zoom : WindowKey
home_zoom = codes "home" ∷ (codes "ana" ∷ (codes "zoom" ∷ []))

abbrev no_windows : Windows (List Segment) Text (List Text)
no_windows = record { trackers = []; carries = []; budgets = [] }

-- A tracker that ended a meeting here.
abbrev after_meeting : Tracker (List Segment) Text (List Text)
after_meeting = record idle.tracker { ended_lines = codes "bye" ∷ [] }

has_lines : after_meeting.ended_lines ≢ []
has_lines e = cc

no_windows-IsCapped : IsCapped (List Segment) Text (List Text) no_windows
unfolding max_carries
no_windows-IsCapped = (omega arith, omega arith)
