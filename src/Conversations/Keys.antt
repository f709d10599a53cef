-- ===== src/Conversations/Keys.antt =====
-- api/src/api/persistence/conversations.py: no household and no id is ever entered twice, so the rows that
-- the sweeps go through are exactly the rows that a lookup finds.
use tenir.Prelude.{ℕ, ◌≡◌, refl, ap, List, [], ◌∷◌, All, nat_key, list_key, inl, inr, Option-cases}
use tenir.Prelude.Dict.{
  Dict, lookup, keys, insert-Distinct, remove-Distinct, All-insert, All-lookup,
}
use tenir.Prelude.Elem.{Distinct}
use tenir.Prelude.Text.{Text}
use tenir.Conversations.Model.{Conversation}
use tenir.Conversations.Store.{
  Rows, Store, rows_of, set_rows, conversations, put_row, change_row, create, reopen, add_segment,
  set_segment_translation, add_cue, add_song, set_meeting_title, add_participants,
  set_speaker_alias, finish, set_audio_key, clear_audio_key, delete,
}
use tenir.Conversations.Sweep.{
  map_values, map_rows, finish_stale, set_delivery, requeue_failed_deliveries,
}
use tenir.Conversations.Ops.{
  Edit, Op, edit_step, step, run, reopen_row, new, edit, drop_row, read, sweep, requeue, alias,
}

pub record IsKeyed (s : Store) : Type 0 where
  pub households_once : Distinct (keys s.by_household)
  pub rows_once : All (λ x. Distinct (keys x.1)) s.by_household

pub rows_of-Distinct : (h : Text) (s : Store) → IsKeyed s → Distinct (keys (rows_of h s))
unfolding rows_of
rows_of-Distinct h s k = elim (Option-cases (lookup h s.by_household)) [
  | inl absent ↦ rw absent tt
  | inr (rows, there) ↦
      rw there (All-lookup (λ r. Distinct (keys r)) h rows s.by_household k.rows_once there)
]

set_rows-IsKeyed :
    (h : Text) (rows : Rows) (s : Store)
    → Distinct (keys rows)
    → IsKeyed s
    → IsKeyed (set_rows h rows s)
unfolding set_rows
set_rows-IsKeyed h rows s once k = record {
  households_once = insert-Distinct h rows s.by_household k.households_once;
  rows_once = All-insert (λ r. Distinct (keys r)) h rows s.by_household once k.rows_once;
}

conversations-IsKeyed : (h : Text) (s : Store) → IsKeyed s → IsKeyed (conversations h s).1
unfolding conversations
conversations-IsKeyed h s k = elim (Option-cases (lookup h s.by_household)) [
  | inl absent ↦ rw (absent, conversations) (set_rows-IsKeyed h [] s tt k)
  | inr (rows, there) ↦ rw (there, conversations) k
]

put_row-IsKeyed :
    (h i : Text) (c : Conversation) (s : Store) → IsKeyed s → IsKeyed (put_row h i c s)
unfolding put_row
put_row-IsKeyed h i c s k =
    set_rows-IsKeyed h _ s (insert-Distinct i c (rows_of h s) (rows_of-Distinct h s k)) k

change_row-IsKeyed :
    (h i : Text) (f : Conversation → Conversation) (s : Store)
    → IsKeyed s
    → IsKeyed (change_row h i f s)
unfolding change_row
change_row-IsKeyed h i f s k = elim (Option-cases (lookup i (rows_of h s))) [
  | inl absent ↦ rw (absent, change_row) (conversations-IsKeyed h s k)
  | inr (c, there) ↦
      rw (there, change_row) (put_row-IsKeyed h i (f c) _ (conversations-IsKeyed h s k))
]

keys-map_values : {V : Type 0} (f : V → V) (d : Dict Text V) → keys (map_values f d) ≡ keys d
keys-map_values f [] = refl
keys-map_values f ((j, v) ∷ d) = ap (λ t. j ∷ t) (keys-map_values f d)

map_rows-IsKeyed :
    (f : Conversation → Conversation) (s : Store) → IsKeyed s → IsKeyed (map_rows f s)
unfolding map_rows
map_rows-IsKeyed f s k = record {
  households_once = rw keys-map_values k.households_once;
  rows_once = each s.by_household k.rows_once;
}
  where
    each :
        (d : Dict Text Rows)
        → All (λ x. Distinct (keys x.1)) d
        → All (λ x. Distinct (keys x.1)) (map_values (map_values f) d)
    each [] all = tt
    each ((j, rows) ∷ d) all = (rw keys-map_values all.0, each d all.1)

module _ (casefold : Text → Text) where
  edit_step-IsKeyed :
      (now : ℕ) (h i : Text) (e : Edit) (s : Store)
      → IsKeyed s
      → IsKeyed (edit_step casefold now h i e s)
  unfolding edit_step reopen add_segment set_segment_translation add_cue add_song set_meeting_title
      add_participants finish set_audio_key clear_audio_key set_delivery
  edit_step-IsKeyed now h i reopen_row s k = change_row-IsKeyed h i _ s k
  edit_step-IsKeyed now h i e s k = change_row-IsKeyed h i _ s k

  step-IsKeyed : (now : ℕ) (o : Op) (s : Store) → IsKeyed s → IsKeyed (step casefold now o s)
  unfolding step create delete finish_stale requeue_failed_deliveries set_speaker_alias
  step-IsKeyed now (new h i args) s k = put_row-IsKeyed h i _ _ (conversations-IsKeyed h s k)
  step-IsKeyed now (edit h i e) s k = edit_step-IsKeyed now h i e s k
  step-IsKeyed now (drop_row h i) s k =
      set_rows-IsKeyed h _ _ (remove-Distinct i (rows_of h s) (rows_of-Distinct h s k))
        (conversations-IsKeyed h s k)
  step-IsKeyed now (read h) s k = conversations-IsKeyed h s k
  step-IsKeyed now sweep s k = map_rows-IsKeyed _ s k
  step-IsKeyed now (requeue reasons) s k = map_rows-IsKeyed _ s k
  step-IsKeyed now (alias h o org a n) s k = record {
    households_once = k.households_once;
    rows_once = k.rows_once;
  }

  -- No sequence of calls enters a household or an id twice.
  pub run-IsKeyed : (ops : List (ℕ × Op)) (s : Store) → IsKeyed s → IsKeyed (run casefold ops s)
  unfolding run
  run-IsKeyed [] s k = k
  run-IsKeyed ((now, o) ∷ ops) s k = run-IsKeyed ops _ (step-IsKeyed now o s k)
