-- ===== src/Conversations/Ops.antt =====
-- api/src/api/persistence/conversations.py: the store as a machine. An `Op` is one call of a method at
-- one time; `row_step` is the abstract store, in which each row lives on its own.
use tenir.Prelude.{ℕ, Option, none, some, List, [], ◌∷◌, nat_key, list_key, if◌then◌else◌}
use mathlib.Core.Option
use tenir.Prelude.Text.{Text}
use tenir.Conversations.Model.{Status, DeliveryState, Segment, Cue, Song, Conversation}
use tenir.Conversations.Store.{
  Store, opened, NewConversation, created, create, reopen, upsert, add_segment, translate_first,
  set_segment_translation, add_cue, add_song, set_meeting_title, add_names, add_participants,
  set_speaker_alias, finish_row, finish, set_audio_key, clear_audio_key, conversations, delete,
}
use tenir.Conversations.Sweep.{
  is_screen, swept, finish_stale, set_delivery, requeued, requeue_failed_deliveries,
}
use tenir.Conversations.Rows.{here}

-- A method that changes one row.
pub data Edit : Type 0 where
  reopen_row : Edit
  segment : Segment → Edit
  translation : Text → Text → Edit
  cue : Cue → Edit
  song : Song → Edit
  meeting_title : Text → Edit
  participants : List (Text × ℕ) → Edit
  finish_with : Status → Option ℕ → Edit
  audio : Text → Edit
  no_audio : Edit
  delivery : DeliveryState → Option Text → Edit

-- `read` stands for the methods that only read: they enter the household that they ask for.
pub data Op : Type 0 where
  new : Text → Text → NewConversation → Op
  edit : Text → Text → Edit → Op
  drop_row : Text → Text → Op
  read : Text → Op
  sweep : Op
  requeue : List Text → Op
  alias : Text → Text → Text → Text → Text → Op

module _ (casefold : Text → Text) where
  unfoldable pub edit_step : ℕ → Text → Text → Edit → Store → Store
  edit_step now h k reopen_row s = (reopen now h k s).0
  edit_step now h k (segment x) s = add_segment h k x s
  edit_step now h k (translation i t) s = set_segment_translation h k i t s
  edit_step now h k (cue x) s = add_cue h k x s
  edit_step now h k (song x) s = add_song h k x s
  edit_step now h k (meeting_title t) s = set_meeting_title h k t s
  edit_step now h k (participants ns) s = add_participants h k ns s
  edit_step now h k (finish_with st token) s = (finish now h k st token s).0
  edit_step now h k (audio key) s = (set_audio_key h k key s).0
  edit_step now h k no_audio s = clear_audio_key h k s
  edit_step now h k (delivery st error) s = set_delivery h k st error s

  unfoldable pub step : ℕ → Op → Store → Store
  unfolding edit_step
  step now (new h k args) s = (create now h k args s).0
  step now (edit h k e) s = edit_step now h k e s
  step now (drop_row h k) s = (delete h k s).0
  step now (read h) s = (conversations h s).1
  step now sweep s = (finish_stale now s).0
  step now (requeue reasons) s = (requeue_failed_deliveries reasons s).0
  step now (alias h o org a n) s = set_speaker_alias casefold h o org a n s

  unfoldable pub run : List (ℕ × Op) → Store → Store
  run [] s = s
  run ((now, o) ∷ ops) s = run ops (step now o s)

-- What an edit makes of the row that it is about.
unfoldable pub edited : ℕ → Edit → Conversation → Conversation
edited now reopen_row c = opened now c
edited now (segment x) c = record c { segments = upsert (λ y. y.segment_id) x c.segments }
edited now (translation i t) c = record c { segments = translate_first i t c.segments }
edited now (cue x) c = record c { cues = upsert (λ y. y.cue_id) x c.cues }
edited now (song x) c = record c { songs = upsert (λ y. y.song_id) x c.songs }
edited now (meeting_title t) c = record c { meeting_title = some t }
edited now (participants ns) c = record c { participants = add_names ns c.participants }
edited now (finish_with st token) c = finish_row now st token c
edited now (audio key) c = record c { audio_key = some key }
edited now no_audio c = record c { audio_key = none }
edited now (delivery st error) c =
    if is_screen c then record c { delivery_state = some st; delivery_error = error } else c

-- The abstract store: how one call changes the row of household `h` with id `k`.
unfoldable pub row_step : Text → Text → ℕ → Op → Option Conversation → Option Conversation
unfolding edited created
row_step h k now (new h' k' args) r = if here h k h' k' then some (created now h k args r) else r
row_step h k now (edit h' k' e) r = if here h k h' k' then Option.map (edited now e) r else r
row_step h k now (drop_row h' k') r = if here h k h' k' then none else r
row_step h k now (read h') r = r
row_step h k now sweep r = Option.map (swept now) r
row_step h k now (requeue reasons) r = Option.map (requeued reasons) r
row_step h k now (alias h' o org a n) r = r

unfoldable pub row_run : Text → Text → List (ℕ × Op) → Option Conversation → Option Conversation
row_run h k [] r = r
row_run h k ((now, o) ∷ ops) r = row_run h k ops (row_step h k now o r)
