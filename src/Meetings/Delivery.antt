-- ===== src/Meetings/Delivery.antt =====
-- api/src/api/screen/meetings.py: no line that the merger found is lost or stored twice.
use tenir.Prelude.{
  ℕ, ◌≡◌, refl, sym, ap, ◌∙◌, true, false, List, [], ◌∷◌, ◌++◌, append_assoc, inl, inr,
  Option-cases, arith,
}
use tenir.Prelude.Text.{Text}
use tenir.Conversations.Model.{Segment}
use tenir.Meetings.Parts.{CaptionMerger, History, RosterOps}
use tenir.Meetings.Calls.{Told, added_segment, added_people, people_call, segment_call}
use tenir.Meetings.Tracker.{Meeting, Window, tell, store_names, store_people, store_loop, store}
use tenir.Meetings.Logic.{Post, weaken-Post, ask_then-Post}
use tenir.Meetings.Filed.{
  filed, for_id, for_id-waiting, plain, filed-plain, filed-added, Owes, Written, Sound,
}

module _ {M L R : Type 0} (merger : CaptionMerger M L) (roster : RosterOps R) (window : Window)
    (past : History merger) where
  pub told-Owes :
      (id : Text) (m : M) (more : List Segment) (t : Told) (s : Meeting M L R)
      → plain t ≡ true
      → Owes past id m more s
      → Owes past id m more (record s { told = s.told ++ (t ∷ []) })
  told-Owes id m more t s h (e, (e', lines)) = (
    e,
    (
      e',
      ap (λ xs. (xs ++ for_id id s.tracker.unsaved) ++ for_id id more) (filed-plain s.told t h)
          ∙ lines,
    ),
  )

  -- The first waiting segment is stored.
  taken-Owes :
      (id : Text) (m : M) (seg : Segment) (rest : List Segment) (s : Meeting M L R)
      → s.tracker.unsaved ≡ seg ∷ rest
      → Owes past id m [] s
      → Owes past id m [] (record s {
        told = s.told ++ (added_segment id seg ∷ []);
        tracker = record s.tracker { unsaved = rest };
      })
  taken-Owes id m seg rest s waits (e, (e', lines)) = (
    e,
    (
      e',
      ap (λ xs. (xs ++ for_id id rest) ++ []) (filed-added s.told id seg)
          ∙ ap (λ xs. xs ++ []) (append_assoc (filed s.told) ((id, seg) ∷ []) (for_id id rest))
          ∙ ap (λ xs. (filed s.told ++ for_id id xs) ++ []) (sym waits)
          ∙ lines,
    ),
  )

  store_loop-Owes :
      (id : Text) (m : M) (xs : List Segment) (s : Meeting M L R)
      → s.tracker.unsaved ≡ xs
      → Owes past id m [] s
      → Post (Written past id m) (Owes past id m []) (store_loop merger roster window id xs s)
  unfolding store_loop tell
  store_loop-Owes id m [] s e owes = (e, owes)
  store_loop-Owes id m (seg ∷ rest) s e owes =
      ask_then-Post merger roster window _ _ segment_call _ s
        (store_loop-Owes id m rest _ refl (taken-Owes id m seg rest s e owes)) (λ h. owes)

  pub store-Owes :
      (id : Text) (m : M) (out : List Segment) (s : Meeting M L R)
      → Owes past id m out s
      → Post (Written past id m) (Sound past) (store merger roster window id out s)
  unfolding store
  store-Owes id m out s (e, (e', lines)) =
      weaken-Post (Written past id m) (Written past id m) (Owes past id m []) (Sound past) _
        (store_loop-Owes id m _
          (record s { tracker = record s.tracker { unsaved = s.tracker.unsaved ++ out } }) refl
          (e, (e', for_id-waiting id (filed s.told) s.tracker.unsaved out ∙ lines)))
        (λ _ s' h. h) (λ s' h. inr (id, m, h))

  module _ (reliable : (n : ℕ) → window.fails people_call n ≡ false)
      (E : Meeting M L R → Type 0) where
    store_names-Owes :
        (id : Text) (at : ℕ) (names : List Text) (m : M) (more : List Segment) (s : Meeting M L R)
        → Owes past id m more s
        → Post (λ _. Owes past id m more) E (store_names merger roster window id at names s)
    unfolding store_names tell
    store_names-Owes id at [] m more s owes = owes
    store_names-Owes id at (n ∷ ns) m more s owes =
        ask_then-Post merger roster window _ _ people_call _ s
          (told-Owes id m more (added_people id (n ∷ ns) at) s refl owes)
          (λ h. absurd (grind (arith, h, reliable s.calls)))

    pub store_people-Owes :
        (id : Text) (ts : ℕ) (m : M) (more : List Segment) (s : Meeting M L R)
        → Owes past id m more s
        → Post (λ _. Owes past id m more) E (store_people merger roster window id ts s)
    unfolding store_people
    store_people-Owes id ts m more s owes = elim (Option-cases s.tracker.names) [
      | inl none_yet ↦ rw (none_yet, store_people) owes
      | inr (r, known) ↦ rw (known, store_people, owes.1.0) (store_names-Owes id _ _ m more s owes)
    ]
