-- ===== src/Meetings/Opening.antt =====
-- api/src/api/screen/meetings.py: no line that the merger found is lost when a meeting starts and goes
-- on.
use tenir.Prelude.{
  ℕ, ◌+◌, ◌≡◌, refl, sym, ap, ◌∙◌, Bool, true, false, some, List, [], ◌∷◌, ◌++◌, ◌⊎◌, inl, inr,
  nat_beq,
}
use tenir.Prelude.Text.{Text}
use tenir.Conversations.Model.{Segment}
use tenir.Meetings.Parts.{CaptionBlock, CaptionMerger, History, RosterOps}
use tenir.Meetings.Calls.{
  cadence_sent, account_call, sweep_call, create_call, people_call, feed_call, knows_call,
}
use tenir.Meetings.Tracker.{
  Meeting, Window, tell, store, check_account, sweep_first, prepare, start_meeting,
}
use tenir.Meetings.Frames.{
  keep_lines, feed_merger, merger_for, fed, is_stale, replaced, feed_known, take_caption,
  check_known, unvouched,
}
use tenir.Meetings.Logic.{
  Post, and_then-Post, weaken-Post, choice-Post, ask-Post, ask_then-Post, send_then-Post,
}
use tenir.Meetings.Filed.{for_id, filed-created, Closed, Owes, Written, Sound}
use tenir.Meetings.Closing.{more-lines}
use tenir.Meetings.Delivery.{told-Owes, store-Owes, store_people-Owes}

module _ {M L R : Type 0} (merger : CaptionMerger M L) (roster : RosterOps R) (window : Window)
    (past : History merger) (reliable : (n : ℕ) → window.fails people_call n ≡ false) where
  abbrev Kept : {A : Type 0} → A → Meeting M L R → Type 0
  Kept _ = Sound past

  abbrev Shut : {A : Type 0} → A → Meeting M L R → Type 0
  Shut _ = Closed past

  store-Sound :
      (id : Text) (m : M) (out : List Segment) (s : Meeting M L R)
      → Owes past id m out s
      → Post Kept (Sound past) (store merger roster window id out s)
  store-Sound id m out s owes =
      weaken-Post (Written past id m) Kept (Sound past) (Sound past)
        (store merger roster window id out s) (store-Owes merger roster window past id m out s owes)
        (λ _ s' (e, h). inr (id, m, h)) (λ s' h. h)

  check_account-Closed :
      (n : ℕ) (s : Meeting M L R)
      → Closed past s
      → Post (λ _. Closed past) (Sound past) (check_account merger roster window n s)
  unfolding check_account
  check_account-Closed n s closed =
      choice-Post (λ _. Closed past) (Sound past) (window.account_exists n) _ _ closed (inl closed)

  sweep_first-Closed :
      (n : ℕ) (s : Meeting M L R)
      → Closed past s
      → Post (λ _. Closed past) (Sound past) (sweep_first merger roster window n s)
  unfolding sweep_first
  sweep_first-Closed n s closed =
      choice-Post (λ _. Closed past) (Sound past) (window.sweep_pending n) _ _
        (ask-Post merger roster window _ _ sweep_call s closed (inl closed)) closed

  prepare-Closed :
      (s : Meeting M L R)
      → Closed past s
      → Post (λ _. Closed past) (Sound past) (prepare merger roster window s)
  unfolding prepare
  prepare-Closed s closed =
      ask_then-Post merger roster window _ _ account_call _ s
        (and_then-Post Shut (λ _. Closed past) (Sound past) _ _
          (check_account-Closed (s.calls + 1) (record s { calls = s.calls + 1 }) closed)
          (λ _ s₁ closed₁. sweep_first-Closed s₁.calls s₁ closed₁))
        (λ h. inl closed)

  start-Owes :
      (ts : ℕ) (m : M) (out : List Segment) (s : Meeting M L R)
      → past.history m ≡ out
      → Closed past s
      → Post (λ id. Owes past id m out) (Sound past) (start_meeting merger roster window ts m s)
  unfolding start_meeting tell
  start-Owes ts m out s found closed =
      and_then-Post Shut (λ id. Owes past id m out) (Sound past) (prepare merger roster window s) _
        (prepare-Closed s closed)
        (λ _ s₁ closed₁.
          ask_then-Post merger roster window _ _ create_call _ s₁
            (and_then-Post (λ _. Owes past (window.new_id s₁.calls) m out)
              (λ id. Owes past id m out) (Sound past) _ _
              (store_people-Owes merger roster window past reliable (Sound past)
                (window.new_id s₁.calls) ts m out _
                (
                  refl,
                  (
                    refl,
                    ap (λ xs. (xs ++ []) ++ for_id (window.new_id s₁.calls) out)
                          (filed-created s₁.told _)
                        ∙ ap (for_id (window.new_id s₁.calls)) (sym found),
                  ),
                ))
              (λ _ s₂ owes.
                send_then-Post merger roster window _ _ (cadence_sent true) _ s₂
                  (told-Owes merger roster window past _ m out (cadence_sent true) s₂ refl owes)
                  owes))
            (λ h. inl closed₁))

  keep_lines-Sound :
      (ts : ℕ) (m : M) (out : List Segment) (s : Meeting M L R)
      → (Closed past s × (past.history m ≡ out)) ⊎ ((id : Text) × Owes past id m out s)
      → Post Kept (Sound past) (keep_lines merger roster window ts m out s)
  unfolding keep_lines
  keep_lines-Sound ts m out s (inl (closed, found)) =
      rw (closed.0, keep_lines)
        (choice-Post Kept (Sound past) (nat_beq (merger.new_lines m) 0) _ _ (inl closed) (
          and_then-Post (λ id. Owes past id m out) Kept (Sound past)
            (start_meeting merger roster window ts m s) _ (start-Owes ts m out s found closed)
            (λ id s' owes. store-Sound id m out s' owes)))
  keep_lines-Sound ts m out s (inr (id, owes)) =
      rw (owes.0, keep_lines) (store-Sound id m out s owes)

  fresh-history :
      (ts : ℕ) (s : Meeting M L R)
      → Closed past s
      → past.history (merger_for merger roster window ts s.tracker) ≡ []
  unfolding merger_for
  fresh-history ts s closed = rw (closed.1, merger_for) (past.history_fresh ts _)

  open-merger :
      (ts : ℕ) (s : Meeting M L R) (m : M)
      → s.tracker.merging ≡ some m
      → merger_for merger roster window ts s.tracker ≡ m
  unfolding merger_for
  open-merger ts s m e = rw (e, merger_for) refl

  -- The merger of the tracker, once it has grown by a frame.
  fed-Owes :
      (blocks : List CaptionBlock) (ts n : ℕ) (s : Meeting M L R)
      → Sound past s
      → let grown = merger.feed blocks ts (merger_for merger roster window ts s.tracker) in
        let s' = record s {
          tracker =
              fed merger roster window blocks ts
                (is_stale merger roster window blocks s.tracker)
                grown.0
                s.tracker;
          calls = n;
        } in
        (Closed past s' × (past.history grown.0 ≡ grown.1))
        ⊎ ((id : Text) × Owes past id grown.0 grown.1 s')
  unfolding fed merger_for
  fed-Owes blocks ts n s (inl closed) = inl (
    (closed.0, ap (replaced merger roster window _) closed.1),
    past.history_feed blocks ts _
        ∙ ap (λ h. h ++ (merger.feed blocks ts (merger_for merger roster window ts s.tracker)).1)
            (fresh-history ts s closed),
  )
  fed-Owes blocks ts n s (inr (id, m, owes)) = inr (
    id,
    (
      owes.0,
      (
        ap (replaced merger roster window _) owes.1.0,
        more-lines merger roster window past id m (merger_for merger roster window ts s.tracker) _ _
            s (open-merger ts s m owes.1.0) (past.history_feed blocks ts _) owes,
      ),
    ),
  )

  feed_merger-Sound :
      (blocks : List CaptionBlock) (ts : ℕ) (s : Meeting M L R)
      → Sound past s
      → Post Kept (Sound past) (feed_merger merger roster window blocks ts s)
  unfolding feed_merger
  feed_merger-Sound blocks ts s sound =
      ask_then-Post merger roster window _ _ feed_call _ s
        (keep_lines-Sound ts _ _ _ (fed-Owes blocks ts (s.calls + 1) s sound)) (λ h. sound)

  feed_known-Sound :
      (known : Bool) (blocks : List CaptionBlock) (ts : ℕ) (s : Meeting M L R)
      → Sound past s
      → Post Kept (Sound past) (feed_known merger roster window known blocks ts s)
  unfolding feed_known
  feed_known-Sound true blocks ts s sound = feed_merger-Sound blocks ts s sound
  feed_known-Sound false blocks ts s sound = sound

  pub take_caption-Sound :
      (blocks : List CaptionBlock) (ts : ℕ) (s : Meeting M L R)
      → Sound past s
      → Post Kept (Sound past) (take_caption merger roster window blocks ts s)
  unfolding take_caption check_known
  take_caption-Sound [] ts s sound = sound
  take_caption-Sound (b ∷ bs) ts s sound =
      choice-Post Kept (Sound past) (unvouched merger roster window (b ∷ bs) s.tracker) _ _
        (ask_then-Post merger roster window _ _ knows_call _ s
          (feed_known-Sound _ (b ∷ bs) ts _ sound) (λ h. sound))
        (feed_merger-Sound (b ∷ bs) ts s sound)
