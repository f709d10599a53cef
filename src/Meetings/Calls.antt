-- ===== src/Meetings/Calls.antt =====
-- api/src/api/screen/meetings.py: calls of the store, which run on another thread and can raise. A
-- method is an action on a state that stays written when it raises.
use tenir.Prelude.{ℕ, Bool, List}
use tenir.Prelude.Text.{Text}
use tenir.Conversations.Model.{Segment}

-- What the store and the client were told, in order.
pub data Told : Type 0 where
  created : Text → Told
  added_segment : Text → Segment → Told
  added_people : Text → List Text → ℕ → Told
  finished : Text → Told
  cadence_sent : Bool → Told
  captions_off_sent : ℕ → Told

-- The kinds of calls, for what can fail.
pub data Call : Type 0 where
  aliases_call : Call
  account_call : Call
  sweep_call : Call
  create_call : Call
  people_call : Call
  segment_call : Call
  finish_call : Call
  feed_call : Call
  knows_call : Call

pub data Fault : Type 0 where
  store_failed : Fault
  account_gone : Fault
  over_budget : Fault

-- What a call raises: the merger's refuse a frame for its cost, with the merger as it was.
abbrev pub fault : Call → Fault
fault feed_call = over_budget
fault knows_call = over_budget
fault call = store_failed

pub data Result (A : Type 0) : Type 0 where
  ok : A → Result A
  err : Fault → Result A

abbrev pub Action : Type 0 → Type 0 → Type 0
Action S A = S → Result A × S

module _ {S A : Type 0} where
  abbrev pub return : A → Action S A
  return a s = (ok a, s)

  abbrev pub raise : Fault → Action S A
  raise e s = (err e, s)

-- Goes on after a call, unless it raised.
abbrev pub and_then : {S A B : Type 0} → Result A × S → (A → Action S B) → Result B × S
and_then (ok a, s) f = f a s
and_then (err e, s) f = (err e, s)

infixl 5 ◌>>=◌ ◌>>◌
abbrev pub ◌>>=◌ : {S A B : Type 0} → Action S A → (A → Action S B) → Action S B
◌>>=◌ m f s = and_then (m s) f

abbrev pub ◌>>◌ : {S A B : Type 0} → Action S A → Action S B → Action S B
m >> k = m >>= λ _. k

abbrev pub modify : {S : Type 0} → (S → S) → Action S (Unit {0})
modify f s = (ok tt, f s)

abbrev pub get_state : {S : Type 0} → Action S S
get_state s = (ok s, s)
