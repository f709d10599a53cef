-- ===== src/Conversations/Rows.antt =====
-- api/src/api/persistence/conversations.py: what each kind of change does to the row of any household
-- and id. The other proofs read the store through these laws and keep its dictionaries shut.
use tenir.Prelude.{
  ℕ, ◌≡◌, ap, Bool, ◌&&◌, none, some, [], arith, ◌==◌, nat_key, list_key, list_beq_iff,
  if◌then◌else◌, Option-cases, inl, inr,
}
use mathlib.Core.Option
use tenir.Prelude.Dict.{lookup, insert, remove, lookup-insert, lookup-remove}
use tenir.Prelude.Text.{Text}
use tenir.Conversations.Model.{Conversation}
use tenir.Conversations.Store.{
  Rows, Store, rows_of, set_rows, conversations, row, put_row, change_row, NewConversation, created,
  create, delete,
}

change_row-absent :
    (h k : Text) (f : Conversation → Conversation) (s : Store)
    → row h k s ≡ none
    → change_row h k f s ≡ (conversations h s).1
unfolding change_row row
change_row-absent h k f s absent = rw (absent, change_row)

change_row-present :
    (h k : Text) (f : Conversation → Conversation) (s : Store) (c : Conversation)
    → row h k s ≡ some c
    → change_row h k f s ≡ put_row h k (f c) (conversations h s).1
unfolding change_row row
change_row-present h k f s c there = rw (there, change_row)

module _ (h : Text) where
  rows_of-set_rows :
      (h' : Text) (rows : Rows) (s : Store)
      → rows_of h (set_rows h' rows s) ≡ (if h' == h then rows else rows_of h s)
  unfolding rows_of set_rows
  rows_of-set_rows h' rows s = ground (arith, lookup-insert h' h rows s.by_household)

  rows_of-conversations : (h' : Text) (s : Store) → rows_of h (conversations h' s).1 ≡ rows_of h s
  unfolding rows_of conversations
  rows_of-conversations h' s =
      ground (arith, lookup-insert h' h [] s.by_household, list_beq_iff h' h)

  module _ (k : Text) where
    abbrev pub here : Text → Text → Bool
    here h' k' = h' == h && k' == k

    pub row-conversations : (h' : Text) (s : Store) → row h k (conversations h' s).1 ≡ row h k s
    unfolding row
    row-conversations h' s = ap (lookup k) (rows_of-conversations h' s)

    pub row-put_row :
        (h' k' : Text) (c : Conversation) (s : Store)
        → row h k (put_row h' k' c s) ≡ (if here h' k' then some c else row h k s)
    unfolding row put_row
    row-put_row h' k' c s = ground (
      arith,
      rows_of-set_rows h' (insert k' c (rows_of h' s)) s,
      lookup-insert k' k c (rows_of h' s),
      list_beq_iff h' h,
    )

    pub row-change_row :
        (h' k' : Text) (f : Conversation → Conversation) (s : Store)
        → row h k (change_row h' k' f s)
          ≡ (if here h' k' then Option.map f (row h k s) else row h k s)
    row-change_row h' k' f s = elim (Option-cases (row h' k' s)) [
      | inl absent ↦
          rw (change_row-absent h' k' f s absent, row-conversations)
            (ground (arith, list_beq_iff h' h, list_beq_iff k' k))
      | inr (c, there) ↦
          rw (change_row-present h' k' f s c there, row-put_row, row-conversations)
            (ground (arith, list_beq_iff h' h, list_beq_iff k' k))
    ]

    pub row-create :
        (now : ℕ) (h' k' : Text) (args : NewConversation) (s : Store)
        → row h k (create now h' k' args s).0
          ≡ (if here h' k' then some (created now h' k' args (row h' k' s)) else row h k s)
    unfolding create row
    row-create now h' k' args s = rw (row-put_row, row-conversations)

    pub row-delete :
        (h' k' : Text) (s : Store)
        → row h k (delete h' k' s).0 ≡ (if here h' k' then none else row h k s)
    unfolding delete row
    row-delete h' k' s = ground (
      arith,
      rows_of-set_rows h' (remove k' (rows_of h' s)) (conversations h' s).1,
      rows_of-conversations h' s,
      lookup-remove k' k (rows_of h' s),
      list_beq_iff h' h,
    )
