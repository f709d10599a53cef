-- ===== src/Meetings/Parts.antt =====
-- api/src/api/screen/meetings.py: what a tracker uses of api/src/api/screen/merge.py and zoom.py, as
-- an interface: the merger of the caption snapshots and the roster of names.
use tenir.Prelude.{ℕ, ◌≡◌, Bool, Option, List, [], ◌++◌}
use tenir.Prelude.Text.{Text}
use tenir.Conversations.Model.{Segment}

pub record CaptionBlock : Type 0 where
  pub speaker : Option Text
  pub has_header : Bool
  pub lines : List Text
  pub avatar : Bool

-- What a tracker reads of a frame.
pub record FullFrame : Type 0 where
  pub participants : List Text
  pub active_speaker : Option Text
  pub in_meeting : Bool

-- The operations of `CaptionMerger`, on states M with known lines L, where they do not raise.
pub record CaptionMerger (M L : Type 0) : Type 0 where
  pub fresh : ℕ → List L → M
  pub feed : List CaptionBlock → ℕ → M → M × List Segment
  pub knows_any : List CaptionBlock → ℕ → M → Bool
  pub flush : ℕ → M → M × List Segment
  pub rename : Text → Text → M → M
  pub recent : M → List L
  pub new_lines : M → ℕ
  pub start_ms : M → ℕ

-- What a merger has returned so far, for the statements about it.
pub record History {M L : Type 0} (merger : CaptionMerger M L) : Type 0 where
  pub history : M → List Segment
  pub history_fresh : (ts : ℕ) (ls : List L) → history (merger.fresh ts ls) ≡ []
  pub history_feed :
      (blocks : List CaptionBlock) (ts : ℕ) (m : M)
      → history (merger.feed blocks ts m).0 ≡ history m ++ (merger.feed blocks ts m).1
  pub history_flush :
      (ts : ℕ) (m : M) → history (merger.flush ts m).0 ≡ history m ++ (merger.flush ts m).1
  pub history_rename : (old new : Text) (m : M) → history (merger.rename old new m) ≡ history m

-- The operations of `Roster`.
pub record RosterOps (R : Type 0) : Type 0 where
  pub make : List (Text × Text) → R
  pub add : Text → R → R
  pub match_name : Text → R → Option Text
  pub names : R → List Text
  pub renamed : R → List (Text × Text)
  pub clear_renamed : R → R
