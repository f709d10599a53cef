-- ===== src/Meetings/Filed.antt =====
-- api/src/api/screen/meetings.py: the lines that the merger found, against those that were stored.
use tenir.Prelude.{
  ◌≡◌, refl, sym, ap, ◌∙◌, Bool, true, false, none, some, List, [], ◌∷◌, ◌++◌, map, append_assoc,
  append-nil, ◌⊎◌,
}
use tenir.Prelude.Text.{Text}
use tenir.Conversations.Model.{Segment}
use tenir.Meetings.Parts.{CaptionMerger, History}
use tenir.Meetings.Calls.{
  Told, created, added_segment, added_people, finished, cadence_sent, captions_off_sent,
}
use tenir.Meetings.Tracker.{Meeting}

-- The segments that the store was given since the last row was created, with their conversation.
unfoldable pub filed_from : List (Text × Segment) → List Told → List (Text × Segment)
filed_from acc [] = acc
filed_from acc (created id ∷ ts) = filed_from [] ts
filed_from acc (added_segment id seg ∷ ts) = filed_from (acc ++ ((id, seg) ∷ [])) ts
filed_from acc (added_people id names at ∷ ts) = filed_from acc ts
filed_from acc (finished id ∷ ts) = filed_from acc ts
filed_from acc (cadence_sent meeting ∷ ts) = filed_from acc ts
filed_from acc (captions_off_sent at ∷ ts) = filed_from acc ts

unfoldable pub filed : List Told → List (Text × Segment)
filed ts = filed_from [] ts

pub filed_from-append :
    (ts us : List Told) (acc : List (Text × Segment))
    → filed_from acc (ts ++ us) ≡ filed_from (filed_from acc ts) us
unfolding filed_from
filed_from-append [] us acc = refl
filed_from-append (created id ∷ ts) us acc = filed_from-append ts us []
filed_from-append (added_segment id seg ∷ ts) us acc = filed_from-append ts us _
filed_from-append (added_people id names at ∷ ts) us acc = filed_from-append ts us acc
filed_from-append (finished id ∷ ts) us acc = filed_from-append ts us acc
filed_from-append (cadence_sent meeting ∷ ts) us acc = filed_from-append ts us acc
filed_from-append (captions_off_sent at ∷ ts) us acc = filed_from-append ts us acc

abbrev pub for_id : Text → List Segment → List (Text × Segment)
for_id id = map (λ seg. (id, seg))

pub for_id-append :
    (id : Text) (xs ys : List Segment) → for_id id (xs ++ ys) ≡ for_id id xs ++ for_id id ys
for_id-append id [] ys = refl
for_id-append id (x ∷ xs) ys = ap (◌∷◌ (id, x)) (for_id-append id xs ys)

pub for_id-waiting :
    (id : Text) (stored : List (Text × Segment)) (xs ys : List Segment)
    → (stored ++ for_id id (xs ++ ys)) ++ [] ≡ (stored ++ for_id id xs) ++ for_id id ys
for_id-waiting id stored xs ys =
    append-nil _
    ∙ ap (◌++◌ stored) (for_id-append id xs ys)
    ∙ sym (append_assoc stored (for_id id xs) (for_id id ys))

-- What is told without a line of a meeting.
abbrev pub plain : Told → Bool
plain (created id) = false
plain (added_segment id seg) = false
plain t = true

pub filed-plain : (ts : List Told) (t : Told) → plain t ≡ true → filed (ts ++ (t ∷ [])) ≡ filed ts
unfolding filed filed_from
filed-plain ts (created id) h = absurd (cc)
filed-plain ts (added_segment id seg) h = absurd (cc)
filed-plain ts (added_people id names at) h = filed_from-append ts _ []
filed-plain ts (finished id) h = filed_from-append ts _ []
filed-plain ts (cadence_sent meeting) h = filed_from-append ts _ []
filed-plain ts (captions_off_sent at) h = filed_from-append ts _ []

pub filed-created : (ts : List Told) (id : Text) → filed (ts ++ (created id ∷ [])) ≡ []
unfolding filed filed_from
filed-created ts id = filed_from-append ts _ []

pub filed-added :
    (ts : List Told) (id : Text) (seg : Segment)
    → filed (ts ++ (added_segment id seg ∷ [])) ≡ filed ts ++ ((id, seg) ∷ [])
unfolding filed filed_from
filed-added ts id seg = filed_from-append ts _ []

module _ {M L R : Type 0} where
  -- What the store was given and what waits for it, in order.
  abbrev pub given : Text → Meeting M L R → List (Text × Segment)
  given id s = filed s.told ++ for_id id s.tracker.unsaved

module _ {M L R : Type 0} {merger : CaptionMerger M L} (past : History merger) where
  -- No meeting is open.
  abbrev pub Closed : Meeting M L R → Type 0
  Closed s = (s.tracker.conversation_id ≡ none) × (s.tracker.merging ≡ none)

  -- A meeting is open, and what the merger found is what was stored, what waits, and more.
  abbrev pub Owes : Text → M → List Segment → Meeting M L R → Type 0
  Owes id m more s =
      (s.tracker.conversation_id ≡ some id)
      × ((s.tracker.merging ≡ some m) × (given id s ++ for_id id more ≡ for_id id (past.history m)))

  -- Nothing waits.
  abbrev pub Written : Text → M → Unit {0} → Meeting M L R → Type 0
  Written id m _ s = (s.tracker.unsaved ≡ []) × Owes id m [] s

  -- Every line that the merger of an open meeting found was stored or waits, once and in order.
  abbrev pub Sound : Meeting M L R → Type 0
  Sound s = Closed s ⊎ ((id : Text) × (m : M) × Owes id m [] s)
