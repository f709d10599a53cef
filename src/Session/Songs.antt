-- ===== src/Session/Songs.antt =====
-- api/src/api/session.py: what a client sees of the song runs of a session.
use tenir.Prelude.{
  ℕ, All, ◌+◌, ◌-◌, ◌<◌, ◌≡◌, ◌≢◌, inl, inr, refl, sym, ap, subst, ◌∙◌, Bool, true, false, Option,
  none, some, List, [], ◌∷◌, ◌++◌, ◌==◌, nat_key, list_key, option_key, if◌then◌else◌, arith,
  by_test, Bool-cases, All-append,
}
use tenir.Prelude.Text.{Text}
use tenir.Session.Music.{
  SongFrame, song, song_sync, song_done, Lookup, no_lookup, opening, retrying, Player,
  song_position_ms, wakes_at, say_done, end_music_run, end_due, song_end_expire,
}

-- The run that a client shows after a frame; none in the first place when the frame fits no run: a
-- song while another one is shown, or a sync or done of a song that is not.
abbrev pub after_frame : SongFrame → Option ℕ → Option (Option ℕ)
after_frame (song s) none = some (some s.song_id)
after_frame (song s) (some id) = if id == s.song_id then some (some id) else none
after_frame (song_sync id at offset) none = none
after_frame (song_sync id at offset) (some id') = if id' == id then some (some id') else none
after_frame (song_done id) none = none
after_frame (song_done id) (some id') = if id' == id then some none else none

abbrev pub then_frame : SongFrame → Option (Option ℕ) → Option (Option ℕ)
then_frame f none = none
then_frame f (some shown) = after_frame f shown

unfoldable pub after_frames : List SongFrame → Option (Option ℕ) → Option (Option ℕ)
after_frames [] shown = shown
after_frames (f ∷ fs) shown = after_frames fs (then_frame f shown)

pub after_frames-snoc :
    (fs : List SongFrame) (f : SongFrame) (shown : Option (Option ℕ))
    → after_frames (fs ++ (f ∷ [])) shown ≡ then_frame f (after_frames fs shown)
unfolding after_frames
after_frames-snoc [] f shown = refl
after_frames-snoc (g ∷ fs) f shown = after_frames-snoc fs f (then_frame g shown)

abbrev pub id_of : SongFrame → ℕ
id_of (song s) = s.song_id
id_of (song_sync id at offset) = id
id_of (song_done id) = id

-- When a run with that end and anchor is to end.
abbrev pub ends_at : Option ℕ → Option (ℕ × ℕ) → Option ℕ
ends_at (some end_ms) (some (offset, at)) = some (at + (end_ms - offset))
ends_at (some end_ms) none = none
ends_at none anchor = none

-- Without a run nothing of one is left.
pub record IsOff (s : Player) : Type 0 where
  pub no_run : s.run_id ≡ none
  pub no_end : s.end_task ≡ none
  pub no_anchor : s.anchor ≡ none
  pub no_pending : s.pending_key ≡ none
  pub no_song : s.live_song ≡ none

-- With one, its id is the last one given out, a retry is of it, and it ends at its end, when that is
-- known, by the last anchor.
pub record IsOn (id : ℕ) (s : Player) : Type 0 where
  pub run : s.run_id ≡ some id
  pub last_run : s.last_run_id ≡ some id
  pub given : id < s.next_id
  pub timer : s.end_task ≡ ends_at s.end_ms s.anchor

abbrev pub IsState : Bool → Player → Type 0
IsState false s = IsOff s
IsState true s = (id : ℕ) × IsOn id s

-- A new run is opened only while none is on.
abbrev pub IsLookup : Lookup → Bool → Type 0
IsLookup no_lookup active = Unit {0}
IsLookup (opening m key at_ms window_end) active = active ≡ false
IsLookup (retrying id m at_ms window_end) active = Unit {0}

-- The frames fit the runs that the client shows, which ends with that of the session, and ids of
-- later runs are new.
pub record IsPlayer (s : Player) : Type 0 where
  pub shown : after_frames s.frames (some none) ≡ some s.run_id
  pub state : IsState s.music_active s
  pub look : IsLookup s.lookup s.music_active
  pub ids : All (λ f. id_of f < s.next_id) s.frames

pub same_id : (id : ℕ) → (id == id) ≡ true
same_id id = (nat_key.same_iff id id).1 refl

pub timer_at :
    (o : Option ℕ) (offset now : ℕ)
    → wakes_at o (song_position_ms (some (offset, now)) now) now ≡ ends_at o (some (offset, now))
timer_at none offset now = refl
timer_at (some end_ms) offset now = ap some (omega arith)

-- What the clock, the scans and the lookups write of the state leaves the run as it is.
abbrev pub kept : ℕ → Option ℕ → ℕ → Option Text → Lookup → Bool → Player → Player
kept now l m p look q s = record s {
  now_ms = now;
  last_match = l;
  misses = m;
  pending_key = p;
  lookup = look;
  lyrics_pending = q;
}

kept-IsState :
    (b : Bool) (now : ℕ) (l : Option ℕ) (m : ℕ) (p : Option Text) (look : Lookup) (q : Bool)
    (s : Player)
    → (b ≡ false → p ≡ none)
    → IsState b s
    → IsState b (kept now l m p look q s)
kept-IsState false now l m p look q s free h = record {
  no_run = h.no_run;
  no_end = h.no_end;
  no_anchor = h.no_anchor;
  no_pending = free refl;
  no_song = h.no_song;
}
kept-IsState true now l m p look q s free (id, h) =
    (id, record { run = h.run; last_run = h.last_run; given = h.given; timer = h.timer })

pub kept-IsPlayer :
    (now : ℕ) (l : Option ℕ) (m : ℕ) (p : Option Text) (look : Lookup) (q : Bool) (s : Player)
    → (s.music_active ≡ false → p ≡ none)
    → IsLookup look s.music_active
    → IsPlayer s
    → IsPlayer (kept now l m p look q s)
kept-IsPlayer now l m p look q s free fits h = record {
  shown = h.shown;
  state = kept-IsState s.music_active now l m p look q s free h.state;
  look = fits;
  ids = h.ids;
}

pub pending_off : (b : Bool) (s : Player) → IsState b s → b ≡ false → s.pending_key ≡ none
pending_off false s h e = h.no_pending
pending_off true s h e = absurd (cc)

pub look_off : (l : Lookup) (b : Bool) → IsLookup l b → IsLookup l false
look_off no_lookup b h = tt
look_off (opening m key at_ms window_end) b h = refl
look_off (retrying id m at_ms window_end) b h = tt

pub run-IsOn :
    (b : Bool) (s : Player) (id : ℕ) → IsState b s → s.run_id ≡ some id → IsOn id s × (b ≡ true)
run-IsOn false s id h e = absurd (cc (h.no_run, e))
run-IsOn true s id (id', h) e = (subst (λ i. IsOn i s) (cc (h.run, e)) h, refl)

ended-IsPlayer :
    (id : ℕ) (s : Player)
    → s.music_active ≡ true
    → s.run_id ≡ some id
    → id < s.next_id
    → after_frames s.frames (some none) ≡ some s.run_id
    → IsLookup s.lookup s.music_active
    → All (λ f. id_of f < s.next_id) s.frames
    → IsPlayer (end_music_run s)
unfolding end_music_run
ended-IsPlayer id s active run given shown look ids =
    rw (active, run)
      (record {
        shown =
            after_frames-snoc s.frames (song_done id) (some none)
            ∙ ap (then_frame (song_done id)) (shown ∙ ap some run)
            ∙ rw (same_id id) refl;
        state = record {
          no_run = refl;
          no_end = refl;
          no_anchor = refl;
          no_pending = refl;
          no_song = refl;
        };
        look = look_off s.lookup s.music_active look;
        ids = All-append (λ f. id_of f < s.next_id) s.frames (song_done id ∷ []) ids (given, tt);
      })

pub active-IsOn : (b : Bool) (s : Player) → b ≡ true → IsState b s → (id : ℕ) × IsOn id s
active-IsOn false s e h = absurd (cc)
active-IsOn true s e h = h

end_music_run_off : (s : Player) → s.music_active ≡ false → end_music_run s ≡ s
unfolding end_music_run
end_music_run_off s off = rw (off) refl

pub end_music_run-IsPlayer : (s : Player) → IsPlayer s → IsPlayer (end_music_run s)
end_music_run-IsPlayer s h = elim (Bool-cases s.music_active) [
  | inl active ↦
      let (id, on) = active-IsOn s.music_active s active h.state in
      ended-IsPlayer id s active on.run on.given h.shown h.look h.ids
  | inr off ↦ subst IsPlayer (sym (end_music_run_off s off)) h
]

pub end_music_run-music_active : (s : Player) → (end_music_run s).music_active ≡ false
unfolding end_music_run
end_music_run-music_active s =
    by_test (λ (x : Player). x.music_active ≡ false) s.music_active
      (λ active. say_done_active s.run_id _ refl) (λ off. off)
  where
    say_done_active :
        (o : Option ℕ) (s : Player) → s.music_active ≡ false → (say_done o s).music_active ≡ false
    say_done_active none s e = e
    say_done_active (some id) s e = e

pub song_end_expire-IsPlayer : (s : Player) → IsPlayer s → IsPlayer (song_end_expire s)
unfolding song_end_expire
song_end_expire-IsPlayer s h =
    by_test IsPlayer (end_due s.end_task s.now_ms)
      (λ due. elim (Bool-cases s.music_active) [
        | inl active ↦
            let (id, on) = active-IsOn s.music_active s active h.state in
            ended-IsPlayer id _ active on.run on.given h.shown h.look h.ids
        | inr off ↦
            absurd (not_due s.end_task s.now_ms (off_of s.music_active s off h.state).no_end due)
      ])
      (λ early. h)
  where
    off_of : (b : Bool) (s : Player) → b ≡ false → IsState b s → IsOff s
    off_of false s e h = h
    off_of true s e h = absurd (cc)

    not_due : (o : Option ℕ) (now : ℕ) → o ≡ none → end_due o now ≢ true
    not_due o now e f = absurd (cc (ap (λ x. end_due x now) e, f))
