-- ===== src/Meetings/Closing.antt =====
-- api/src/api/screen/meetings.py: when a meeting ends, all of its lines were stored.
use tenir.Prelude.{
  ℕ, ◌≡◌, refl, sym, ap, ◌∙◌, max, false, Option, some, List, [], ◌++◌, append-nil, inr,
}
use tenir.Prelude.Text.{Text}
use tenir.Conversations.Model.{Segment}
use tenir.Meetings.Parts.{CaptionMerger, History, RosterOps}
use tenir.Meetings.Calls.{finished, cadence_sent, finish_call}
use tenir.Meetings.Tracker.{Meeting, Window, tell}
use tenir.Meetings.Frames.{close_meeting, end_meeting}
use tenir.Meetings.Logic.{Post, and_then-Post, ask_then-Post, send_then-Post}
use tenir.Meetings.Filed.{
  filed, for_id, for_id-append, filed-plain, given, Closed, Owes, Written, Sound,
}
use tenir.Meetings.Delivery.{store-Owes}

module _ {M L R : Type 0} (merger : CaptionMerger M L) (roster : RosterOps R) (window : Window)
    (past : History merger) where
  -- The merger n of an open meeting goes on as m' with more lines.
  pub more-lines :
      (id : Text) (m n m' : M) (out : List Segment) (s : Meeting M L R)
      → n ≡ m
      → past.history m' ≡ past.history n ++ out
      → Owes past id m [] s
      → given id s ++ for_id id out ≡ for_id id (past.history m')
  more-lines id m n m' out s e grown owes =
      ap (λ xs. xs ++ for_id id out) (sym (append-nil (given id s)) ∙ owes.1.1)
      ∙ sym (for_id-append id (past.history m) out)
      ∙ ap (for_id id) (sym (grown ∙ ap (λ k. past.history k ++ out) e))

  -- What a meeting is once its merger is flushed.
  flushed-Owes :
      (id : Text) (m : M) (ts : ℕ) (s : Meeting M L R)
      → Owes past id m [] s
      → let flushed = merger.flush ts m in
        Owes past id flushed.0 flushed.1
          (record s { tracker = record s.tracker { merging = some flushed.0 } })
  flushed-Owes id m ts s owes =
      (owes.0, (refl, more-lines id m m _ _ s refl (past.history_flush ts m) owes))

  -- The end of the meeting that was open.
  abbrev pub Ended : Text → List Segment → Option Text → Meeting M L R → Type 0
  Ended id lines r s = (r ≡ some id) × (Closed past s × (filed s.told ≡ for_id id lines))

  settled :
      (id : Text) (m : M) (s : Meeting M L R)
      → s.tracker.unsaved ≡ []
      → Owes past id m [] s
      → filed s.told ≡ for_id id (past.history m)
  settled id m s empty owes =
      sym (append-nil (filed s.told))
      ∙ ap (λ xs. filed s.told ++ for_id id xs) (sym empty)
      ∙ sym (append-nil (given id s))
      ∙ owes.1.1

  close_meeting-Ended :
      (id : Text) (m : M) (now : ℕ) (s : Meeting M L R)
      → Owes past id m [] s
      → Post
          (Ended id (past.history (merger.flush (max now s.tracker.last_ts) m).0))
          (Sound past)
          (close_meeting merger roster window id m now s)
  unfolding close_meeting tell
  close_meeting-Ended id m now s owes =
      let m' = (merger.flush (max now s.tracker.last_ts) m).0 in
      and_then-Post (Written past id m') (Ended id (past.history m')) (Sound past) _ _
        (store-Owes merger roster window past id m' _ _ (flushed-Owes id m _ s owes))
        (λ _ s₁ (empty, owes₁).
          let told = filed-plain s₁.told (finished id) refl ∙ settled id m' s₁ empty owes₁ in
          ask_then-Post merger roster window _ _ finish_call _ s₁
            (send_then-Post merger roster window _ _ (cadence_sent false) _ _
              (refl, ((refl, refl), filed-plain _ (cadence_sent false) refl ∙ told))
              (refl, ((refl, refl), told)))
            (λ h. inr (id, m', owes₁)))

  -- When the end of an open meeting succeeds, the store was given what its merger found, to the last
  -- flush.
  pub end_meeting-Ended :
      (now : ℕ) (id : Text) (m : M) (s : Meeting M L R)
      → Owes past id m [] s
      → Post
          (Ended id (past.history (merger.flush (max now s.tracker.last_ts) m).0))
          (Sound past)
          (end_meeting merger roster window now s)
  unfolding end_meeting
  end_meeting-Ended now id m s owes =
      rw (owes.0, owes.1.0, end_meeting) (close_meeting-Ended id m now s owes)
