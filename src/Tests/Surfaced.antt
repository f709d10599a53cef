-- ===== src/Tests/Surfaced.antt =====
-- Runs of the dedupe of cues of api/src/api/session.py.
use tenir.Prelude.{◌≡◌, refl, true, false, List, [], ◌∷◌, map}
use tenir.Prelude.Text.{Text, codes}
use tenir.Session.Surfaced.{
  Fingerprints, GeneratedCue, Surfaced, Meanwhile, is_similar, is_repeat, surface, offer_cue,
  offer_cues,
}
use tenir.Session.Apart.{IsSurfaced, offer_cues-IsSurfaced}

program : Unit {0}
unfolding is_similar is_repeat surface offer_cue offer_cues
program = tt

-- Each character a word.
abbrev by_letter : Fingerprints
by_letter = record {
  norm_title = λ title. title;
  substance_tokens = λ title body. map (λ c. c ∷ []) body;
  subject_tokens = λ title. map (λ c. c ∷ []) title;
}

abbrev cue : Text → Text → GeneratedCue
cue title body = record { cue_title = title; cue_body = body }

abbrev calm : Meanwhile
calm = record {
  was_finished = false;
  stood_aside = false;
  contradicted = false;
  finished_later = false;
  aside_later = false;
}

abbrev no_cues : Surfaced
no_cues = record {
  surfaced_cue_norms = [];
  surfaced_cues = [];
  surfaced_cue_substance = [];
  surfaced_cue_subjects = [];
}

-- The second cue repeats the body, the third one the subject, and the fourth one is contradicted, so
-- that its title does not come back.
abbrev offers : List (GeneratedCue × Meanwhile)
offers =
    (cue (codes "ab") (codes "vwxyz"), calm)
    ∷ ((cue (codes "cd") (codes "uvwxyz"), calm)
        ∷ ((cue (codes "be") (codes "klmno"), calm)
            ∷ ((cue (codes "fg") (codes "klmno"), record calm { contradicted = true })
                ∷ ((cue (codes "fg") (codes "pqrst"), calm)
                    ∷ ((cue (codes "hi") (codes "klmno"), calm) ∷ [])))))

shown_cues :
    (offer_cues by_letter offers no_cues).surfaced_cues
    ≡ cue (codes "ab") (codes "vwxyz") ∷ (cue (codes "hi") (codes "klmno") ∷ [])
unfolding program
shown_cues = refl

no_cues-IsSurfaced : IsSurfaced by_letter no_cues
no_cues-IsSurfaced = record { pairs = tt; noted = tt; prints_of = refl }

offer_cues-IsSurfaced_example : IsSurfaced by_letter (offer_cues by_letter offers no_cues)
offer_cues-IsSurfaced_example = offer_cues-IsSurfaced by_letter offers no_cues no_cues-IsSurfaced
