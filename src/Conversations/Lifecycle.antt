-- ===== src/Conversations/Lifecycle.antt =====
-- api/src/api/persistence/conversations.py: what can and cannot happen to a recording over any sequence
-- of calls.
use tenir.Prelude.{
  ℕ, ◌≡◌, refl, ap, ◌∙◌, Bool, false, none, some, List, [], ◌∷◌, arith, All, nat_key, list_key,
  if◌then◌else◌,
}
use tenir.Prelude.Text.{Text}
use tenir.Conversations.Model.{Conversation}
use tenir.Conversations.Store.{Store, row, opened, finish_row}
use tenir.Conversations.Sweep.{swept, requeued}
use tenir.Conversations.Rows.{here}
use tenir.Conversations.Ops.{
  Edit, Op, run, edited, row_step, row_run, reopen_row, new, edit, drop_row, read, sweep, requeue,
  alias,
}
use tenir.Conversations.Refine.{row-run}

module _ (h k : Text) where
  abbrev pub is_new : ℕ × Op → Bool
  is_new (now, new h' k' args) = here h k h' k'
  is_new (now, _) = false

  abbrev pub is_drop : ℕ × Op → Bool
  is_drop (now, drop_row h' k') = here h k h' k'
  is_drop (now, _) = false

  row_step-none : (now : ℕ) (o : Op) → is_new (now, o) ≡ false → row_step h k now o none ≡ none
  unfolding row_step
  row_step-none now (new h' k' args) e = rw e
  row_step-none now (edit h' k' x) e = ground arith
  row_step-none now o e = ground arith

  row_run-none :
      (ops : List (ℕ × Op)) → All (λ o. is_new o ≡ false) ops → row_run h k ops none ≡ none
  unfolding row_run
  row_run-none [] all = refl
  row_run-none ((now, o) ∷ ops) all =
      ap (row_run h k ops) (row_step-none now o all.0) ∙ row_run-none ops all.1

  -- A recording that is not there stays away: no sequence of calls brings it (back) but a `create`
  -- of that household and id. So a resume, a late caption or a late finish never undoes a delete.
  pub run-absent :
      (casefold : Text → Text) (ops : List (ℕ × Op)) (s : Store)
      → All (λ o. is_new o ≡ false) ops
      → row h k s ≡ none
      → row h k (run casefold ops s) ≡ none
  run-absent casefold ops s all absent =
      row-run h k casefold ops s ∙ ap (row_run h k ops) absent ∙ row_run-none ops all

  -- What a later session, a caption or a finish must not change.
  pub record SameOrigin (c c' : Conversation) : Type 0 where
    pub same_owner : c'.owner ≡ c.owner
    pub same_start : c'.started_at ≡ c.started_at
    pub same_source : c'.source ≡ c.source
    pub same_org : c'.org_site_key ≡ c.org_site_key
    pub same_mic : c'.mic_source ≡ c.mic_source

  edited-SameOrigin : (now : ℕ) (e : Edit) (c : Conversation) → SameOrigin c (edited now e c)
  unfolding edited finish_row
  edited-SameOrigin now reopen_row c = ground arith
  edited-SameOrigin now e c = ground arith

  -- The row after a call that does not drop it.
  unfoldable pub after : ℕ → Op → Conversation → Conversation
  unfolding edited
  after now (new h' k' args) c = if here h k h' k' then opened now c else c
  after now (edit h' k' e) c = if here h k h' k' then edited now e c else c
  after now (drop_row h' k') c = c
  after now (read h') c = c
  after now sweep c = swept now c
  after now (requeue reasons) c = requeued reasons c
  after now (alias h' o org a n) c = c

  pub row_step-after :
      (now : ℕ) (o : Op) (c : Conversation)
      → is_drop (now, o) ≡ false
      → row_step h k now o (some c) ≡ some (after now o c)
  unfolding row_step after
  row_step-after now (drop_row h' k') c e = rw e
  row_step-after now (new h' k' args) c e = ground arith
  row_step-after now (edit h' k' x) c e = ground arith
  row_step-after now o c e = refl

  SameOrigin-after : (now : ℕ) (o : Op) (c : Conversation) → SameOrigin c (after now o c)
  unfolding after
  SameOrigin-after now (edit h' k' x) c = grind (arith, edited-SameOrigin now x c)
  SameOrigin-after now o c = ground arith

  SameOrigin-trans : (a b c : Conversation) → SameOrigin a b → SameOrigin b c → SameOrigin a c
  SameOrigin-trans a b c p q = ground arith

  row_run-SameOrigin :
      (ops : List (ℕ × Op)) (c : Conversation)
      → All (λ o. is_drop o ≡ false) ops
      → (c' : Conversation) × (row_run h k ops (some c) ≡ some c') × SameOrigin c c'
  unfolding row_run
  row_run-SameOrigin [] c all = (c, refl, ground arith)
  row_run-SameOrigin ((now, o) ∷ ops) c all =
      let (c', at, same) = row_run-SameOrigin ops (after now o c) all.1 in
      (
        c',
        ap (row_run h k ops) (row_step-after now o c all.0) ∙ at,
        SameOrigin-trans c (after now o c) c' (SameOrigin-after now o c) same,
      )

  -- As long as nobody deletes it, a recording stays: whatever else is called, the row is there with
  -- the owner, start, source, org and microphone that it was created with. A resume re-owns nothing.
  run-keeps_origin :
      (casefold : Text → Text) (ops : List (ℕ × Op)) (s : Store) (c : Conversation)
      → All (λ o. is_drop o ≡ false) ops
      → row h k s ≡ some c
      → (c' : Conversation) × (row h k (run casefold ops s) ≡ some c') × SameOrigin c c'
  run-keeps_origin casefold ops s c all there =
      let (c', at, same) = row_run-SameOrigin ops c all in
      (c', row-run h k casefold ops s ∙ ap (row_run h k ops) there ∙ at, same)
