-- ===== src/Conversations/Sessions.antt =====
-- api/src/api/persistence/conversations.py: two sessions of one recording. `create` and `reopen` hand out
-- the row's `opened_at` as a token, and `finish` closes the row only for the latest one.
use tenir.Prelude.{
  ℕ, ◌≡◌, ◌≢◌, refl, ap, ◌∙◌, Bool, true, false, not, Option, none, some, List, [], ◌∷◌, arith, All,
  beq_refl, nat_key, list_key,
}
use tenir.Prelude.Text.{Text}
use tenir.Conversations.Model.{Conversation, live, ready}
use tenir.Conversations.Store.{Store, row, opened, finish_row, finish}
use tenir.Conversations.Rows.{here}
use tenir.Conversations.Ops.{
  Op, run, step, edited, row_step, row_run, reopen_row, finish_with, new, edit, drop_row, sweep,
}
use tenir.Conversations.Refine.{row-run, row-step}
use tenir.Conversations.Lifecycle.{is_drop, after, row_step-after}

module _ (h k : Text) where
  -- A call that does not open, close or drop this row.
  abbrev pub is_quiet : ℕ × Op → Bool
  is_quiet (now, new h' k' args) = not (here h k h' k')
  is_quiet (now, edit h' k' reopen_row) = not (here h k h' k')
  is_quiet (now, edit h' k' (finish_with st token)) = not (here h k h' k')
  is_quiet (now, drop_row h' k') = not (here h k h' k')
  is_quiet (now, sweep) = false
  is_quiet (now, _) = true

  -- The row belongs to the session that opened it at `t`, and is still being recorded.
  pub record OpenSince (t : ℕ) (c : Conversation) : Type 0 where
    pub is_open : c.status ≡ live
    pub no_end : c.ended_at ≡ none
    pub token : c.opened_at ≡ some t

  quiet-is_drop : (o : ℕ × Op) → is_quiet o ≡ true → is_drop h k o ≡ false
  quiet-is_drop (now, drop_row h' k') e = ground arith
  quiet-is_drop (now, o) e = refl

  OpenSince-after :
      (t now : ℕ) (o : Op) (c : Conversation)
      → is_quiet (now, o) ≡ true
      → OpenSince t c
      → OpenSince t (after h k now o c)
  unfolding after
  OpenSince-after t now (edit h' k' reopen_row) c q p = ground arith
  OpenSince-after t now (edit h' k' (finish_with st token)) c q p = ground arith
  OpenSince-after t now (edit h' k' e) c q p = ground arith
  OpenSince-after t now o c q p = ground arith

  quiet_run :
      (t : ℕ) (ops : List (ℕ × Op)) (c : Conversation)
      → All (λ o. is_quiet o ≡ true) ops
      → OpenSince t c
      → (c' : Conversation) × (row_run h k ops (some c) ≡ some c') × OpenSince t c'
  unfolding row_run
  quiet_run t [] c all p = (c, refl, p)
  quiet_run t ((now, o) ∷ ops) c all p =
      let (c', at, p') =
        quiet_run t ops (after h k now o c) all.1 (OpenSince-after t now o c all.0 p) in
      (
        c',
        ap (row_run h k ops) (row_step-after h k now o c (quiet-is_drop (now, o) all.0)) ∙ at,
        p',
      )

  finish_stale_token :
      (t t' now : ℕ) (c : Conversation)
      → t ≢ t'
      → OpenSince t' c
      → finish_row now ready (some t) c ≡ c
  unfolding finish_row
  finish_stale_token t t' now c ne p = ground (arith, p.token)

  finish_own_token :
      (t now : ℕ) (c : Conversation)
      → OpenSince t c
      → finish_row now ready (some t) c ≡ record c { status = ready; ended_at = some now }
  unfolding finish_row
  finish_own_token t now c p = ground (arith, p.token)

  row_step-finish :
      (now : ℕ) (token : Option ℕ) (c : Conversation)
      → row_step h k now (edit h k (finish_with ready token)) (some c)
        ≡ some (finish_row now ready token c)
  unfolding row_step edited
  row_step-finish now token c = rw (beq_refl h, beq_refl k)

  row_step-reopen :
      (now : ℕ) (c : Conversation)
      → row_step h k now (edit h k reopen_row) (some c) ≡ some (opened now c)
  unfolding row_step edited
  row_step-reopen now c = rw (beq_refl h, beq_refl k)

  module _ (casefold : Text → Text) where
    row-finish :
        (now : ℕ) (token : Option ℕ) (s : Store) (c : Conversation)
        → row h k s ≡ some c
        → row h k (finish now h k ready token s).0 ≡ some (finish_row now ready token c)
    unfolding step
    row-finish now token s c there =
        row-step h k casefold now (edit h k (finish_with ready token)) s
        ∙ ap (row_step h k now (edit h k (finish_with ready token))) there
        ∙ row_step-finish now token c

    -- A recording is reopened at `t'`, and then used by calls that do not open, close or drop it.
    -- It is there then and still being recorded. The `finish` of an earlier session, whose token is
    -- another time `t`, leaves the row exactly as it was before; the `finish` of this session changes
    -- its status and its end only.
    pub finish_latest :
        (ops : List (ℕ × Op)) (s : Store) (c : Conversation) (t t' now : ℕ)
        → row h k s ≡ some c
        → t ≢ t'
        → All (λ o. is_quiet o ≡ true) ops
        → let s' = run casefold ((t', edit h k reopen_row) ∷ ops) s in
          (c' : Conversation) × OpenSince t' c'
          × (row h k s' ≡ some c')
          × (row h k (finish now h k ready (some t) s').0 ≡ some c')
          × (row h k (finish now h k ready (some t') s').0
              ≡ some (record c' { status = ready; ended_at = some now }))
    finish_latest ops s c t t' now there ne all =
        let s' = run casefold ((t', edit h k reopen_row) ∷ ops) s in
        let (c', ran, p) =
          quiet_run t' ops (opened t' c) all
            (record { is_open = refl; no_end = refl; token = refl }) in
        let at : row h k s' ≡ some c' =
          row-run h k casefold ((t', edit h k reopen_row) ∷ ops) s
          ∙ (unfold row_run in
              ap (λ r. row_run h k ops (row_step h k t' (edit h k reopen_row) r)) there
              ∙ ap (row_run h k ops) (row_step-reopen t' c)
              ∙ ran) in
        (
          c',
          p,
          at,
          row-finish now (some t) s' c' at ∙ ap some (finish_stale_token t t' now c' ne p),
          row-finish now (some t') s' c' at ∙ ap some (finish_own_token t' now c' p),
        )
