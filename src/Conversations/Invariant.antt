-- ===== src/Conversations/Invariant.antt =====
-- api/src/api/persistence/conversations.py: what every stored row satisfies, whatever was called.
use tenir.Prelude.{
  ℕ, ◌≡◌, ◌≢◌, refl, sym, ◌∙◌, subst, Option, none, some, List, [], ◌∷◌, ◌++◌, map, any, arith,
  list_beq_iff, nat_key, list_key, ◌==◌, if◌then◌else◌, Bool-cases, inl, inr,
}
use tenir.Prelude.Elem.{Distinct, Distinct-snoc, any-Elem}
use tenir.Prelude.Text.{Text}
use tenir.Conversations.Model.{Conversation, Segment, mic, screen, ready}
use tenir.Conversations.Store.{
  Store, row, fresh, created, finish_row, upsert, translate_first, add_names, NewConversation,
}
use tenir.Conversations.Sweep.{swept, requeued, is_requeued}
use tenir.Conversations.Rows.{here}
use tenir.Conversations.Ops.{
  Edit, Op, run, edited, row_step, row_run, reopen_row, segment, translation, cue, song,
  participants, new, edit, drop_row, read, sweep, requeue, alias,
}
use tenir.Conversations.Refine.{row-run}

module _ {ℓ} {A : Type ℓ} (id : A → Text) where
  -- The ids after an upsert: the same ids at the same places, or one more at the end.
  pub map-upsert :
      (x : A) (xs : List A)
      → map id (upsert id x xs)
        ≡ (if any (λ i. i == id x) (map id xs) then map id xs else map id xs ++ (id x ∷ []))
  unfolding upsert
  map-upsert x [] = refl
  map-upsert x (y ∷ ys) = ground (arith, map-upsert x ys, list_beq_iff (id y) (id x))

  upsert-Distinct :
      (x : A) (xs : List A) → Distinct (map id xs) → Distinct (map id (upsert id x xs))
  upsert-Distinct x xs d = rw map-upsert (elim (Bool-cases (any (λ i. i == id x) (map id xs))) [
    | inl old ↦ rw old d
    | inr new_id ↦
        rw new_id
          (Distinct-snoc (id x) (map id xs) d (λ e. ground (arith, any-Elem (id x) (map id xs))))
  ])

add_names-Distinct :
    (ns : List (Text × ℕ)) (ps : List Text) → Distinct ps → Distinct (add_names ns ps)
unfolding add_names
add_names-Distinct [] ps d = d
add_names-Distinct ((n, t) ∷ ns) ps d =
    add_names-Distinct ns _ (elim (Bool-cases (any (λ p. p == n) ps)) [
      | inl old ↦ rw old d
      | inr new_name ↦ rw new_name (Distinct-snoc n ps d (λ e. ground (arith, any-Elem n ps)))
    ])

ids-translate_first :
    (i t : Text) (xs : List Segment)
    → map (λ x. x.segment_id) (translate_first i t xs) ≡ map (λ x. x.segment_id) xs
unfolding translate_first
ids-translate_first i t [] = refl
ids-translate_first i t (x ∷ xs) = ground (arith, ids-translate_first i t xs)

module _ (h k : Text) where
  pub record IsRow (c : Conversation) : Type 0 where
    pub its_household : c.household ≡ h
    pub its_id : c.id ≡ k
    pub segment_ids : Distinct (map (λ x. x.segment_id) c.segments)
    pub cue_ids : Distinct (map (λ x. x.cue_id) c.cues)
    pub song_ids : Distinct (map (λ x. x.song_id) c.songs)
    pub names : Distinct c.participants
    pub has_token : c.opened_at ≢ none
    pub ready_ended : c.status ≡ ready → c.ended_at ≢ none
    pub mic_undelivered : c.source ≡ mic → c.delivery_state ≡ none
    pub screen_delivery : c.source ≡ screen → c.delivery_state ≢ none

  fresh-IsRow : (now : ℕ) (args : NewConversation) → IsRow (fresh now h k args)
  unfolding fresh
  fresh-IsRow now args = record {
    its_household = refl;
    its_id = refl;
    segment_ids = tt;
    cue_ids = tt;
    song_ids = tt;
    names = tt;
    has_token = λ e. cc;
    ready_ended = λ e. cc;
    mic_undelivered = λ e. ground arith;
    screen_delivery = λ e. ground arith;
  }

  edited-IsRow : (now : ℕ) (e : Edit) (c : Conversation) → IsRow c → IsRow (edited now e c)
  unfolding edited finish_row
  edited-IsRow now (segment x) c r =
      grind (arith, upsert-Distinct (λ y. y.segment_id) x c.segments r.segment_ids)
  edited-IsRow now (translation i t) c r = grind (arith, ids-translate_first i t c.segments)
  edited-IsRow now (cue x) c r = grind (arith, upsert-Distinct (λ y. y.cue_id) x c.cues r.cue_ids)
  edited-IsRow now (song x) c r =
      grind (arith, upsert-Distinct (λ y. y.song_id) x c.songs r.song_ids)
  edited-IsRow now (participants ns) c r =
      grind (arith, add_names-Distinct ns c.participants r.names)
  edited-IsRow now e c r = grind arith

  abbrev IfRow : Option Conversation → Type 0
  IfRow none = Unit
  IfRow (some c) = IsRow c

  swept-IsRow : (now : ℕ) (c : Conversation) → IsRow c → IsRow (swept now c)
  swept-IsRow now c r = grind arith

  requeued-IsRow : (reasons : List Text) (c : Conversation) → IsRow c → IsRow (requeued reasons c)
  unfolding is_requeued
  requeued-IsRow reasons c r = grind arith

  row_step-IsRow :
      (now : ℕ) (o : Op) (r : Option Conversation) → IfRow r → IfRow (row_step h k now o r)
  unfolding row_step created
  row_step-IsRow now (new h' k' args) none p = elim (Bool-cases (here h k h' k')) [
    | inl this ↦ rw this (fresh-IsRow now args)
    | inr other ↦ rw other p
  ]
  row_step-IsRow now (new h' k' args) (some c) p = elim (Bool-cases (here h k h' k')) [
    | inl this ↦ rw this (edited-IsRow now reopen_row c p)
    | inr other ↦ rw other p
  ]
  row_step-IsRow now (edit h' k' e) none p = elim (Bool-cases (here h k h' k')) [
    | inl this ↦ rw this tt
    | inr other ↦ rw other tt
  ]
  row_step-IsRow now (edit h' k' e) (some c) p = elim (Bool-cases (here h k h' k')) [
    | inl this ↦ rw this (edited-IsRow now e c p)
    | inr other ↦ rw other p
  ]
  row_step-IsRow now (drop_row h' k') r p = elim (Bool-cases (here h k h' k')) [
    | inl this ↦ rw this tt
    | inr other ↦ rw other p
  ]
  row_step-IsRow now (read h') r p = p
  row_step-IsRow now sweep none p = tt
  row_step-IsRow now sweep (some c) p = swept-IsRow now c p
  row_step-IsRow now (requeue reasons) none p = tt
  row_step-IsRow now (requeue reasons) (some c) p = requeued-IsRow reasons c p
  row_step-IsRow now (alias h' o org a n) r p = p

  row_run-IsRow :
      (ops : List (ℕ × Op)) (r : Option Conversation) → IfRow r → IfRow (row_run h k ops r)
  unfolding row_run
  row_run-IsRow [] r p = p
  row_run-IsRow ((now, o) ∷ ops) r p = row_run-IsRow ops _ (row_step-IsRow now o r p)

-- Every row of the store is what its place says.
pub record IsStore (s : Store) : Type 0 where
  pub at_row : (h k : Text) (c : Conversation) → row h k s ≡ some c → IsRow h k c

-- Whatever is called, in whatever order, every row stays filed under its own household and id; its
-- segment, cue and song ids and its participants do not repeat; a finished row has an end; and a row
-- has a delivery state exactly if it is a screen meeting.
pub run-IsStore :
    (casefold : Text → Text) (ops : List (ℕ × Op)) (s : Store)
    → IsStore s
    → IsStore (run casefold ops s)
run-IsStore casefold ops s inv = record {
  at_row = λ h k c there.
      subst (IfRow h k) (sym (row-run h k casefold ops s) ∙ there)
        (row_run-IsRow h k ops (row h k s) (stored h k (row h k s) refl));
}
  where
    stored : (h k : Text) (r : Option Conversation) → row h k s ≡ r → IfRow h k r
    stored h k none e = tt
    stored h k (some c) e = inv.at_row h k c e
