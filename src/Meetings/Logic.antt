-- ===== src/Meetings/Logic.antt =====
-- api/src/api/screen/meetings.py: what holds after a method, for its return and for a raise.
use tenir.Prelude.{◌+◌, ◌≡◌, refl, [], ◌∷◌, ◌++◌, Bool, true, false, if◌then◌else◌}
use tenir.Meetings.Parts.{CaptionMerger, RosterOps}
use tenir.Meetings.Calls.{Told, Call, Fault, fault, Result, ok, err, Action, and_then}
use tenir.Meetings.Tracker.{Meeting, Window, Method, ask, tell, send}

-- Q of the value and the state after a return, E of the state after a raise.
abbrev pub Post : {S A : Type 0} → (A → S → Type 0) → (S → Type 0) → Result A × S → Type 0
Post Q E (ok a, s) = Q a s
Post Q E (err e, s) = E s

pub and_then-Post :
    {S A B : Type 0} (Q : A → S → Type 0) (R : B → S → Type 0) (E : S → Type 0) (x : Result A × S)
    (f : A → Action S B)
    → Post Q E x
    → ((a : A) (s : S) → Q a s → Post R E (f a s))
    → Post R E (and_then x f)
and_then-Post Q R E (ok a, s) f h k = k a s h
and_then-Post Q R E (err e, s) f h k = h

pub weaken-Post :
    {S A : Type 0} (Q R : A → S → Type 0) (E F : S → Type 0) (x : Result A × S)
    → Post Q E x
    → ((a : A) (s : S) → Q a s → R a s)
    → ((s : S) → E s → F s)
    → Post R F x
weaken-Post Q R E F (ok a, s) h k l = k a s h
weaken-Post Q R E F (err e, s) h k l = l s h

outcome-Post :
    {S : Type 0} (Q : Unit {0} → S → Type 0) (E : S → Type 0) (b : Bool) (e : Fault) (s : S)
    → Q tt s
    → (b ≡ true → E s)
    → Post Q E (if b then err e else ok tt, s)
outcome-Post Q E true e s q k = k refl
outcome-Post Q E false e s q k = q

optional-Post :
    {S : Type 0} (Q : Unit {0} → S → Type 0) (E : S → Type 0) (b : Bool) (s s' : S)
    → Q tt s'
    → Q tt s
    → Post Q E (if b then (ok tt, s') else (ok tt, s))
optional-Post Q E true s s' q r = q
optional-Post Q E false s s' q r = r

pub choice-Post :
    {S A : Type 0} (Q : A → S → Type 0) (E : S → Type 0) (b : Bool) (x y : Result A × S)
    → Post Q E x
    → Post Q E y
    → Post Q E (if b then x else y)
choice-Post Q E true x y q r = q
choice-Post Q E false x y q r = r

module _ {M L R : Type 0} (merger : CaptionMerger M L) (roster : RosterOps R)
    (window : Window) where
  -- After a call, whether or not it raised, only the count of calls differs.
  pub ask_then-Post :
      {B : Type 0} (Q : B → Meeting M L R → Type 0) (E : Meeting M L R → Type 0) (call : Call)
      (f : Unit {0} → Method merger roster window B) (s : Meeting M L R)
      → Post Q E (f tt (record s { calls = s.calls + 1 }))
      → (window.fails call s.calls ≡ true → E (record s { calls = s.calls + 1 }))
      → Post Q E (and_then (ask merger roster window call s) f)
  unfolding ask
  ask_then-Post Q E call f s q k =
      and_then-Post (λ u s'. Post Q E (f u s')) Q E _ f
        (outcome-Post (λ u s'. Post Q E (f u s')) E (window.fails call s.calls) (fault call) _ q k)
        (λ u s' h. h)

  pub ask-Post :
      (Q E : Meeting M L R → Type 0) (call : Call) (s : Meeting M L R)
      → Q (record s { calls = s.calls + 1 })
      → E (record s { calls = s.calls + 1 })
      → Post (λ _. Q) E (ask merger roster window call s)
  unfolding ask
  ask-Post Q E call s q e =
      outcome-Post (λ _. Q) E (window.fails call s.calls) (fault call) _ q (λ h. e)

  pub send-Post :
      (Q E : Meeting M L R → Type 0) (t : Told) (s : Meeting M L R)
      → Q (record s { told = s.told ++ (t ∷ []) })
      → Q s
      → Post (λ _. Q) E (send merger roster window t s)
  unfolding send tell
  send-Post Q E t s q r = optional-Post (λ _. Q) E s.tracker.attached s _ q r

  pub send_then-Post :
      {B : Type 0} (Q : B → Meeting M L R → Type 0) (E : Meeting M L R → Type 0) (t : Told)
      (f : Unit {0} → Method merger roster window B) (s : Meeting M L R)
      → Post Q E (f tt (record s { told = s.told ++ (t ∷ []) }))
      → Post Q E (f tt s)
      → Post Q E (and_then (send merger roster window t s) f)
  unfolding send tell
  send_then-Post Q E t f s q r =
      and_then-Post (λ u s'. Post Q E (f u s')) Q E _ f
        (optional-Post (λ u s'. Post Q E (f u s')) E s.tracker.attached s _ q r) (λ u s' h. h)
