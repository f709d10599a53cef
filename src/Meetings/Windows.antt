-- ===== src/Meetings/Windows.antt =====
-- api/src/api/screen/meetings.py: `ScreenMeetings`, the trackers of all windows.
use tenir.Prelude.{
  ℕ, Option, none, some, List, [], ◌∷◌, length, take, nat_key, list_key, leb, if◌then◌else◌,
}
use tenir.Prelude.Dict.{Dict, lookup, insert, remove}
use tenir.Prelude.Text.{Text}
use tenir.Meetings.Tracker.{Tracker}

unfoldable pub max_carries : ℕ
max_carries = 1000

-- The entries that are left once the oldest are out.
abbrev pub evict {ℓ} : {A : Type ℓ} → ℕ → List A → List A
evict cap [] = []
evict cap (x ∷ xs) = let rest = evict cap xs in if leb (length (x ∷ xs)) cap then x ∷ xs else rest

-- Household, user and site of a window, and the user of a window.
abbrev pub WindowKey : Type 0
WindowKey = List Text

abbrev pub user_of : WindowKey → List Text
user_of key = take 2 key

module _ (M L R : Type 0) where
  -- A tracker with the number of the bucket that it spends from.
  pub record Tracked : Type 0 where
    pub tracker : Tracker M L R
    pub bucket : ℕ

  pub record Windows : Type 0 where
    pub trackers : Dict WindowKey Tracked
    pub carries : Dict WindowKey (List L)
    pub budgets : Dict (List Text) ℕ

  abbrev pub with_carried : Option (List L) → Tracker M L R → Tracker M L R
  with_carried none t = t
  with_carried (some lines) t = record t { ended_lines = lines }

  abbrev pub bucket_or : ℕ → Option ℕ → ℕ
  bucket_or new none = new
  bucket_or new (some b) = b

  -- `put` of a tracker that no window has yet, with the number of a bucket that nobody has.
  unfoldable pub put_new : WindowKey → Tracker M L R → ℕ → Windows → Tracked × Windows
  put_new key t new s =
      let bucket = bucket_or new (lookup (user_of key) s.budgets) in
      let kept : Tracked = record {
        tracker = with_carried (lookup key s.carries) t;
        bucket = bucket;
      } in
      (
        kept,
        record {
          trackers = insert key kept s.trackers;
          carries = remove key s.carries;
          budgets =
              evict max_carries (insert (user_of key) bucket (remove (user_of key) s.budgets));
        },
      )

  abbrev pub put_at : Option Tracked → WindowKey → Tracker M L R → ℕ → Windows → Tracked × Windows
  put_at none key t new s = put_new key t new s
  put_at (some kept) key t new s = (kept, s)

  unfoldable pub put_tracker : WindowKey → Tracker M L R → ℕ → Windows → Tracked × Windows
  put_tracker key t new s = put_at (lookup key s.trackers) key t new s

  abbrev pub carry_lines : WindowKey → List L → Dict WindowKey (List L) → Dict WindowKey (List L)
  carry_lines key [] carries = carries
  carry_lines key (l ∷ ls) carries = evict max_carries (insert key (l ∷ ls) (remove key carries))

  -- `_drop`
  unfoldable pub drop_tracker : WindowKey → Tracker M L R → Windows → Windows
  drop_tracker key t s = record s {
    trackers = remove key s.trackers;
    carries = carry_lines key t.ended_lines s.carries;
  }
