-- ===== src/Tests/Translate.antt =====
-- Runs of the translation runs of api/src/api/session.py.
use tenir.Prelude.{ℕ, ◌+◌, ◌≡◌, refl, true, false, Option, none, some, List, [], ◌∷◌}
use tenir.Prelude.Text.{Text, codes}
use tenir.Session.Translate.{
  Final, translate, done, LangId, Run, open_translation_run, touch_translation_hold,
  end_translation_run, resend_done, reads_english, consider_opener, consider_translation, Spoken,
  turn_ends, partial_comes, resumes_warm, spoken, all_spoken, pending_opener_ms,
}
use tenir.Session.Runs.{AreJobs, after_jobs}

program : Unit {0}
unfolding AreJobs open_translation_run touch_translation_hold end_translation_run resend_done
    reads_english consider_opener consider_translation spoken all_spoken pending_opener_ms
    after_jobs
program = tt

-- Language identification that is never sure and leans to the tag.
abbrev unsure : LangId
unsure = record {
  detect_lang = λ text. none;
  leans = λ text lang. true;
  repeated_word = λ text. false;
}

abbrev new_run : Run
new_run = record {
  translation_active = false;
  translation_run_lang = none;
  translation_pending = none;
  translation_hold = false;
  source_lang = none;
  jobs = [];
}

abbrev turn : Option Text → ℕ → Final
turn lang start_ms = record {
  text = codes "hola";
  lang = lang;
  start_ms = start_ms;
  end_ms = start_ms + 900;
}

abbrev spanish : Option Text
spanish = some (codes "es")

-- The first turn is held, the second one confirms it; an English turn ends the run.
abbrev conversation : List (Spoken unsure)
conversation =
    turn_ends (turn spanish 0)
    ∷ (turn_ends (turn spanish 3000)
        ∷ (partial_comes
            ∷ (turn_ends (turn none 5000)
                ∷ (turn_ends (turn (some (codes "en")) 7000) ∷ (resumes_warm ∷ [])))))

conversation_jobs :
    (all_spoken unsure conversation new_run).jobs
    ≡ translate (turn spanish 0) spanish
      ∷ (translate (turn spanish 3000) spanish
          ∷ (translate (turn none 5000) spanish ∷ (done ∷ (done ∷ []))))
unfolding program
conversation_jobs = refl
