-- ===== src/Meetings/Running.antt =====
-- api/src/api/screen/meetings.py: what holds of a tracker over everything that it reads.
use tenir.Prelude.{
  ℕ, ◌≡◌, refl, sym, ap, ◌∙◌, Bool, true, false, Option, List, [], ◌∷◌, ◌++◌, inl, inr,
  Option-cases,
}
use tenir.Prelude.Text.{Text}
use tenir.Meetings.Parts.{CaptionBlock, FullFrame, CaptionMerger, History, RosterOps}
use tenir.Meetings.Calls.{Told, captions_off_sent, aliases_call, people_call, Result, ok, err}
use tenir.Meetings.Tracker.{Meeting, Window, store_people, clock}
use tenir.Meetings.Frames.{
  add_all, rename_all, rename_merging, take_names, ensure_roster, store_open, on_full, warn,
  check_captions_off, on_caption, end_meeting, Event, full_read, caption_read, ended_at, clocked,
  act, run,
}
use tenir.Meetings.Logic.{Post, and_then-Post, weaken-Post, choice-Post, ask_then-Post, send-Post}
use tenir.Meetings.Filed.{for_id, plain, Owes, Sound}
use tenir.Meetings.Delivery.{told-Owes, store_people-Owes}
use tenir.Meetings.Closing.{Ended, end_meeting-Ended}
use tenir.Meetings.Opening.{take_caption-Sound}

module _ {S A : Type 0} (P : S → Type 0) where
  -- What holds after a return and after a raise holds.
  state-Post : (x : Result A × S) → Post (λ _. P) P x → P x.1
  state-Post (ok a, s) h = h
  state-Post (err e, s) h = h

module _ {M L R : Type 0} (merger : CaptionMerger M L) (roster : RosterOps R) (window : Window)
    (past : History merger) (reliable : (n : ℕ) → window.fails people_call n ≡ false) where
  rename_all-history :
      (ns : List (Text × Text)) (m : M)
      → past.history (rename_all merger roster window ns m) ≡ past.history m
  rename_all-history [] m = refl
  rename_all-history ((old, new) ∷ ns) m =
      rename_all-history ns (merger.rename old new m) ∙ past.history_rename old new m

  take_names-Sound :
      (frame : FullFrame) (r : R) (s : Meeting M L R)
      → Sound past s
      → Sound past (record s { tracker = take_names merger roster window frame r s.tracker })
  unfolding take_names
  take_names-Sound frame r s (inl closed) =
      let ns = roster.renamed (add_all merger roster window frame.participants r) in
      inl (closed.0, ap (rename_merging merger roster window ns) closed.1)
  take_names-Sound frame r s (inr (id, m, owes)) =
      let ns = roster.renamed (add_all merger roster window frame.participants r) in
      inr (
        id,
        rename_all merger roster window ns m,
        (
          owes.0,
          (
            ap (rename_merging merger roster window ns) owes.1.0,
            owes.1.1 ∙ ap (for_id id) (sym (rename_all-history ns m)),
          ),
        ),
      )

  told-Sound :
      (t : Told) (s : Meeting M L R)
      → plain t ≡ true
      → Sound past s
      → Sound past (record s { told = s.told ++ (t ∷ []) })
  told-Sound t s h (inl closed) = inl closed
  told-Sound t s h (inr (id, m, owes)) =
      inr (id, m, told-Owes merger roster window past id m [] t s h owes)

  ensure_roster-Sound :
      (s : Meeting M L R)
      → Sound past s
      → Post (λ _. Sound past) (Sound past) (ensure_roster merger roster window s)
  unfolding ensure_roster
  ensure_roster-Sound s sound = elim (Option-cases s.tracker.names) [
    | inl none_yet ↦
        rw (none_yet, ensure_roster)
          (ask_then-Post merger roster window (λ _. Sound past) (Sound past) aliases_call _ s sound
            (λ h. sound))
    | inr (r, known) ↦ rw (known, ensure_roster) sound
  ]

  store_open-Sound :
      (ts : ℕ) (s : Meeting M L R)
      → Sound past s
      → Post (λ _. Sound past) (Sound past) (store_open merger roster window ts s)
  unfolding store_open
  store_open-Sound ts s (inl closed) = rw (closed.0, store_open) (inl closed)
  store_open-Sound ts s (inr (id, m, owes)) =
      rw (owes.0, store_open)
        (weaken-Post (λ _. Owes past id m []) (λ _. Sound past) (Sound past) (Sound past)
          (store_people merger roster window id ts s)
          (store_people-Owes merger roster window past reliable (Sound past) id ts m [] s owes)
          (λ _ s' h. inr (id, m, h)) (λ s' h. h))

  warn-Sound :
      (ts : ℕ) (next : Option ℕ × Bool) (s : Meeting M L R)
      → Sound past s
      → Post (λ _. Sound past) (Sound past) (warn merger roster window ts next s)
  unfolding warn
  warn-Sound ts (at, due) s sound =
      choice-Post (λ _. Sound past) (Sound past) due _ _
        (send-Post merger roster window (Sound past) (Sound past) (captions_off_sent ts) _
          (told-Sound (captions_off_sent ts) s refl sound) sound)
        sound

  on_full-Sound :
      (frame : FullFrame) (ts : ℕ) (s : Meeting M L R)
      → Sound past s
      → Post (λ _. Sound past) (Sound past) (on_full merger roster window frame ts s)
  unfolding on_full check_captions_off
  on_full-Sound frame ts s sound =
      and_then-Post (λ _. Sound past) (λ _. Sound past) (Sound past)
        (ensure_roster merger roster window s) _ (ensure_roster-Sound s sound)
        (λ r s₁ sound₁.
          and_then-Post (λ _. Sound past) (λ _. Sound past) (Sound past) _ _
            (store_open-Sound ts
              (record s₁ { tracker = take_names merger roster window frame r s₁.tracker })
              (take_names-Sound frame r s₁ sound₁))
            (λ _ s₂ sound₂. warn-Sound ts _ _ sound₂))

  on_caption-Sound :
      (blocks : List CaptionBlock) (ts : ℕ) (s : Meeting M L R)
      → Sound past s
      → Sound past (on_caption merger roster window blocks ts s).1
  unfolding on_caption
  on_caption-Sound blocks ts s sound =
      state-Post (Sound past) _
        (take_caption-Sound merger roster window past reliable blocks ts s sound)

  end_meeting-Sound :
      (now : ℕ) (s : Meeting M L R)
      → Sound past s
      → Sound past (end_meeting merger roster window now s).1
  unfolding end_meeting
  end_meeting-Sound now s (inl closed) = rw (closed.0, end_meeting) (inl closed)
  end_meeting-Sound now s (inr (id, m, owes)) =
      state-Post (Sound past) (end_meeting merger roster window now s) (
        weaken-Post (Ended merger roster window past id _) (λ _. Sound past) (Sound past)
          (Sound past) (end_meeting merger roster window now s)
          (end_meeting-Ended merger roster window past now id m s owes) (λ _ s' h. inl h.1.0)
          (λ s' h. h))

  act-Sound :
      (e : Event merger roster window) (s : Meeting M L R)
      → Sound past s
      → Sound past (act merger roster window e s)
  unfolding act clocked clock
  act-Sound (full_read frame ts) s sound = state-Post (Sound past) _ (on_full-Sound frame _ _ sound)
  act-Sound (caption_read blocks ts) s sound = on_caption-Sound blocks _ _ sound
  act-Sound (ended_at now) s sound = end_meeting-Sound now s sound

  pub run-Sound :
      (es : List (Event merger roster window)) (s : Meeting M L R)
      → Sound past s
      → Sound past (run merger roster window es s)
  unfolding run
  run-Sound [] s sound = sound
  run-Sound (e ∷ es) s sound = run-Sound es (act merger roster window e s) (act-Sound e s sound)
