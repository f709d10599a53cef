-- ===== src/Session/Translate.antt =====
-- api/src/api/session.py: the translation run of a session (`_consider_translation` and what it calls).
use tenir.Prelude.{
  ℕ, ◌+◌, Bool, true, false, ◌&&◌, ◌||◌, not, Option, none, some, List, [], ◌∷◌, ◌++◌, leb, ◌==◌,
  nat_key, list_key, if◌then◌else◌,
}
use tenir.Prelude.Text.{Text, codes}

-- A finalized turn.
pub record Final : Type 0 where
  pub text : Text
  pub lang : Option Text
  pub start_ms : ℕ
  pub end_ms : ℕ

-- The entries of `_translation_queue`.
pub data TranslationJob : Type 0 where
  translate : Final → Option Text → TranslationJob
  done : TranslationJob
  stop : TranslationJob

-- Language identification: `detect_lang`, whether `frequency_lean` reaches `_HELD_OPENER_MIN_LEAN`,
-- and `repeated_word`.
pub record LangId : Type 0 where
  pub detect_lang : Text → Option Text
  pub leans : Text → Text → Bool
  pub repeated_word : Text → Bool

-- `translation_hold` is whether the silence hold runs; the queue holds all jobs that were put.
pub record Run : Type 0 where
  pub translation_active : Bool
  pub translation_run_lang : Option Text
  pub translation_pending : Option (Final × Text)
  pub translation_hold : Bool
  pub source_lang : Option Text
  pub jobs : List TranslationJob

unfoldable pub pending_opener_ms : ℕ
pending_opener_ms = 8000

abbrev pub english : Text
english = codes "en"

-- `_open_translation_run`; `_touch_translation_hold` restarts the hold.
unfoldable pub open_translation_run : Final → Text → Run → Run
open_translation_run final lang s = record s {
  translation_pending = none;
  translation_active = true;
  translation_run_lang = some lang;
  translation_hold = true;
  jobs = s.jobs ++ (translate final (some lang) ∷ []);
}

-- `_touch_translation_hold`
unfoldable pub touch_translation_hold : Run → Run
touch_translation_hold s = if s.translation_active then record s { translation_hold = true } else s

-- `_end_translation_run`, also when the hold expires.
unfoldable pub end_translation_run : Run → Run
end_translation_run s =
    if s.translation_active
    then record s {
      translation_active = false;
      translation_run_lang = none;
      translation_hold = false;
      jobs = s.jobs ++ (done ∷ []);
    }
    else s

-- `resend_ended_asides`, as far as it concerns translations.
unfoldable pub resend_done : Run → Run
resend_done s = if s.translation_active then s else record s { jobs = s.jobs ++ (done ∷ []) }

module _ (ident : LangId) where
  -- The text reads English, or no more the tagged language than English.
  unfoldable pub reads_english : Text → Text → Bool
  reads_english text lang = elim (ident.detect_lang text) [
    | some detected ↦ detected == english
    | none ↦ not (ident.leans text lang) || ident.repeated_word text
  ]

  abbrev pub undecided : Text → Bool
  undecided text = elim (ident.detect_lang text) [ none ↦ true | some detected ↦ false ]

  -- A held turn of the same language, not long before.
  abbrev pub confirms : Option (Final × Text) → Final → Text → Bool
  confirms none final lang = false
  confirms (some (held, held_lang)) final lang =
      held_lang == lang && leb final.start_ms (held.end_ms + pending_opener_ms)

  abbrev pub open_held : Option (Final × Text) → Text → Run → Run
  open_held none lang s = s
  open_held (some (held, held_lang)) lang s = open_translation_run held lang s

  -- A foreign turn while no run is open and the user named no language.
  unfoldable pub consider_opener : Final → Text → Run → Run
  consider_opener final lang s =
      if reads_english final.text lang
      then s
      else if undecided final.text && not (confirms s.translation_pending final lang)
      then record s { translation_pending = some (final, lang) }
      else open_translation_run final lang (
          if confirms s.translation_pending final lang
          then open_held s.translation_pending lang s
          else s)

  abbrev pub is_unset : Option Text → Bool
  is_unset none = true
  is_unset (some lang) = false

  -- `_consider_translation` of a turn by its language.
  abbrev pub consider_lang : Option Text → Final → Run → Run
  consider_lang none final s =
      if s.translation_active
      then record s {
        translation_hold = true;
        jobs = s.jobs ++ (translate final s.translation_run_lang ∷ []);
      }
      else s
  consider_lang (some lang) final s =
      if lang == english
      then end_translation_run (record s { translation_pending = none })
      else if not s.translation_active && is_unset s.source_lang
      then consider_opener final lang s
      else open_translation_run final lang s

  unfoldable pub consider_translation : Final → Run → Run
  consider_translation final s = consider_lang final.lang final s

  -- What a session does with its run: a turn, a partial, silence, a warm resume.
  pub data Spoken : Type 0 where
    turn_ends : Final → Spoken
    partial_comes : Spoken
    hold_expires : Spoken
    resumes_warm : Spoken

  unfoldable pub spoken : Spoken → Run → Run
  spoken (turn_ends final) s = consider_translation final s
  spoken partial_comes s = touch_translation_hold s
  spoken hold_expires s = end_translation_run s
  spoken resumes_warm s = resend_done s

  unfoldable pub all_spoken : List Spoken → Run → Run
  all_spoken [] s = s
  all_spoken (e ∷ es) s = all_spoken es (spoken e s)
