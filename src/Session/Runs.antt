-- ===== src/Session/Runs.antt =====
-- api/src/api/session.py: the translation jobs of a session form runs.
use tenir.Prelude.{
  ◌≡◌, ◌⊎◌, Bool, true, false, Option, none, some, List, [], ◌∷◌, ◌==◌, nat_key, list_key,
}
use tenir.Prelude.Text.{Text}
use tenir.Session.Translate.{Final, TranslationJob, translate, done, stop, Run, english}

-- What a client holds after a job: a run in a language, or none.
abbrev pub after_job : TranslationJob → Bool × Option Text → Bool × Option Text
after_job (translate final lang) open_run = (true, lang)
after_job done open_run = (false, none)
after_job stop open_run = open_run

unfoldable pub after_jobs : List TranslationJob → Bool × Option Text → Bool × Option Text
after_jobs [] open_run = open_run
after_jobs (j ∷ js) open_run = after_jobs js (after_job j open_run)

abbrev pub IsForeign : Text → Type 0
IsForeign lang = (lang == english) ≡ false

-- A turn is translated from its own foreign language or, when it has none, from the one of the job
-- before it, in a run that was not closed since.
abbrev pub Follows : TranslationJob → Bool × Option Text → Type 0
Follows (translate final lang) open_run =
    (l : Text) × ((lang ≡ some l)
      × (IsForeign l
          × ((final.lang ≡ some l) ⊎ ((final.lang ≡ none) × (open_run ≡ (true, some l))))))
Follows done open_run = Unit {0}
Follows stop open_run = Unit {0}

-- Each job follows what the jobs before it leave open.
unfoldable pub AreJobs : List TranslationJob → Bool × Option Text → Type 0
AreJobs [] open_run = Unit {0}
AreJobs (j ∷ js) open_run = Follows j open_run × AreJobs js (after_job j open_run)

abbrev pub IsHeldTurn : Option (Final × Text) → Type 0
IsHeldTurn none = Unit {0}
IsHeldTurn (some (final, lang)) = (final.lang ≡ some lang) × IsForeign lang

abbrev pub IsOpen : Bool → Option Text → Type 0
IsOpen false lang = lang ≡ none
IsOpen true lang = (l : Text) × ((lang ≡ some l) × IsForeign l)

-- The flag and the language are those of the run that the jobs leave open, the hold runs exactly
-- then, and each job follows what the jobs before it leave open.
pub record IsRun (s : Run) : Type 0 where
  pub left_open : after_jobs s.jobs (false, none) ≡ (s.translation_active, s.translation_run_lang)
  pub run_lang : IsOpen s.translation_active s.translation_run_lang
  pub holds : s.translation_hold ≡ s.translation_active
  pub each : AreJobs s.jobs (false, none)
  pub held_turn : IsHeldTurn s.translation_pending
