-- ===== src/Conversations/Model.antt =====
-- api/src/api/persistence/models.py: the records of a conversation. A `datetime` is a natural number
-- (microseconds since the epoch); milliseconds of audio are natural numbers.
use tenir.Prelude.{ℕ, max, min, Bool, Option, List, [], ◌∷◌, length, if◌then◌else◌}
use tenir.Prelude.Int.{ℤ, pos, sub_ℕ}
use tenir.Prelude.Text.{Text, join, split_words}

pub data Status : Type 0 where
  live ready : Status

pub data Source : Type 0 where
  mic screen : Source

pub data DeliveryState : Type 0 where
  pending sent failed : DeliveryState

-- A stored status string: one of the current two, or another one from an older version.
pub data StoredStatus : Type 0 where
  known : Status → StoredStatus
  unknown : Text → StoredStatus

unfoldable pub coerce_status : StoredStatus → Bool → Status
coerce_status (known s) ended = s
coerce_status (unknown t) ended = if ended then ready else live

pub record ScreenMeta : Type 0 where
  pub org_site_key : Text
  pub org_name : Text
  pub platform : Text

-- `casefold` is a parameter: its table is the Unicode database.
unfoldable pub alias_key : (Text → Text) → Text → Text
alias_key casefold name = casefold (join (0x20 ∷ []) (split_words name))

pub record Segment : Type 0 where
  pub segment_id : Text
  pub text : Text
  pub start_ms : ℕ
  pub end_ms : ℕ
  pub lang : Option Text
  pub translation : Option Text
  pub speaker : Option Text

pub record Cue : Type 0 where
  pub cue_id : Text
  pub title : Text
  pub body : Text
  pub at_ms : ℕ
  pub source : Option Text

pub record Song : Type 0 where
  pub song_id : Text
  pub title : Text
  pub artist : Text
  pub at_ms : ℕ
  pub duration_ms : Option ℕ

pub record ConversationSummary : Type 0 where
  pub id : Text
  pub household : Text
  pub owner : Option Text
  pub mic_source : Option Text
  pub source_lang : Option Text
  pub started_at : ℕ
  pub ended_at : Option ℕ
  pub status : Status
  pub audio_key : Option Text
  pub source : Source
  pub org_site_key : Option Text
  pub org_name : Option Text
  pub platform : Option Text
  pub meeting_title : Option Text
  pub segment_count : ℕ
  pub duration_ms : ℤ

pub record Conversation : Type 0 where
  pub id : Text
  pub household : Text
  pub owner : Option Text
  pub mic_source : Option Text
  pub source_lang : Option Text
  pub started_at : ℕ
  pub ended_at : Option ℕ
  pub status : Status
  pub audio_key : Option Text
  pub opened_at : Option ℕ
  pub source : Source
  pub org_site_key : Option Text
  pub org_name : Option Text
  pub platform : Option Text
  pub meeting_title : Option Text
  pub participants : List Text
  pub delivery_state : Option DeliveryState
  pub delivery_error : Option Text
  pub segments : List Segment
  pub cues : List Cue
  pub songs : List Song

-- The texts that are not empty, one turn per line.
texts : List Segment → List Text
texts [] = []
texts (s ∷ ss) = elim s.text [ [] ↦ texts ss | c ∷ cs ↦ (c ∷ cs) ∷ texts ss ]

unfoldable pub transcript : Conversation → Text
unfolding texts
transcript c = join (0x0a ∷ []) (texts c.segments)

max_end : ℕ → List Segment → ℕ
max_end n [] = n
max_end n (s ∷ ss) = max_end (max n s.end_ms) ss

min_start : ℕ → List Segment → ℕ
min_start n [] = n
min_start n (s ∷ ss) = min_start (min n s.start_ms) ss

unfoldable pub duration_ms : Conversation → ℤ
unfolding max_end min_start
duration_ms c = elim c.segments [
  | [] ↦ pos 0
  | s ∷ ss ↦ sub_ℕ (max_end s.end_ms ss) (min_start s.start_ms ss)
]

unfoldable pub summary : Conversation → ConversationSummary
summary c = record {
  id = c.id;
  household = c.household;
  owner = c.owner;
  mic_source = c.mic_source;
  source_lang = c.source_lang;
  started_at = c.started_at;
  ended_at = c.ended_at;
  status = c.status;
  audio_key = c.audio_key;
  source = c.source;
  org_site_key = c.org_site_key;
  org_name = c.org_name;
  platform = c.platform;
  meeting_title = c.meeting_title;
  segment_count = length c.segments;
  duration_ms = duration_ms c;
}
