-- ===== src/Conversations/Refine.antt =====
-- api/src/api/persistence/conversations.py: the nested dictionaries of the store implement independent
-- rows, whatever methods are called.
use tenir.Prelude.{
  ℕ, ◌≡◌, refl, ap, ◌∙◌, List, [], ◌∷◌, arith, list_beq_iff, nat_key, list_key, if◌then◌else◌,
}
use mathlib.Core.Option
use tenir.Prelude.Dict.{Dict, lookup}
use tenir.Prelude.Text.{Text}
use tenir.Conversations.Model.{Conversation}
use tenir.Conversations.Store.{
  Store, get_or, rows_of, row, reopen, add_segment, set_segment_translation, add_cue, add_song,
  set_meeting_title, add_participants, set_speaker_alias, finish, set_audio_key, clear_audio_key,
}
use tenir.Conversations.Sweep.{
  map_values, map_rows, finish_stale, set_delivery, requeue_failed_deliveries,
}
use tenir.Conversations.Rows.{here, row-conversations, row-change_row, row-create, row-delete}
use tenir.Conversations.Ops.{
  Edit, Op, edit_step, step, run, edited, row_step, row_run, reopen_row, new, edit, drop_row, read,
  sweep, requeue, alias,
}

lookup-map_values {ℓ} :
    {V : Type ℓ} (k : Text) (f : V → V) (d : Dict Text V)
    → lookup k (map_values f d) ≡ Option.map f (lookup k d)
unfolding lookup
lookup-map_values k f [] = refl
lookup-map_values k f ((j, v) ∷ d) = ground (arith, lookup-map_values k f d)

module _ (h k : Text) where
  pub row-map_rows :
      (f : Conversation → Conversation) (s : Store)
      → row h k (map_rows f s) ≡ Option.map f (row h k s)
  unfolding row rows_of map_rows lookup
  row-map_rows f s = ground (
    arith,
    lookup-map_values h (map_values f) s.by_household,
    lookup-map_values k f (get_or (lookup h s.by_household) []),
  )

  module _ (casefold : Text → Text) where
    row-set_speaker_alias :
        (h' o org a n : Text) (s : Store)
        → row h k (set_speaker_alias casefold h' o org a n s) ≡ row h k s
    unfolding row set_speaker_alias
    row-set_speaker_alias h' o org a n s = refl

    row-edit_step :
        (now : ℕ) (h' k' : Text) (e : Edit) (s : Store)
        → row h k (edit_step casefold now h' k' e s)
          ≡ (if here h k h' k' then Option.map (edited now e) (row h k s) else row h k s)
    unfolding edit_step edited reopen add_segment set_segment_translation add_cue add_song
        set_meeting_title add_participants finish set_audio_key clear_audio_key set_delivery
    row-edit_step now h' k' reopen_row s = row-change_row h k h' k' (edited now reopen_row) s
    row-edit_step now h' k' e s = row-change_row h k h' k' (edited now e) s

    -- One call of any method, seen from the row of household `h` with id `k`: the row changes as
    -- the abstract store says, from nothing but its own content.
    pub row-step :
        (now : ℕ) (o : Op) (s : Store)
        → row h k (step casefold now o s) ≡ row_step h k now o (row h k s)
    unfolding step row_step finish_stale requeue_failed_deliveries
    row-step now (new h' k' args) s =
        rw row-create (ground (arith, list_beq_iff h' h, list_beq_iff k' k))
    row-step now (edit h' k' e) s = row-edit_step now h' k' e s
    row-step now (drop_row h' k') s = row-delete h k h' k' s
    row-step now (read h') s = row-conversations h k h' s
    row-step now sweep s = row-map_rows _ s
    row-step now (requeue reasons) s = row-map_rows _ s
    row-step now (alias h' o org a n) s = row-set_speaker_alias h' o org a n s

    -- Any sequence of calls: the store's row is the row of the abstract store.
    pub row-run :
        (ops : List (ℕ × Op)) (s : Store)
        → row h k (run casefold ops s) ≡ row_run h k ops (row h k s)
    unfolding run row_run
    row-run [] s = refl
    row-run ((now, o) ∷ ops) s =
        row-run ops (step casefold now o s) ∙ ap (row_run h k ops) (row-step now o s)
