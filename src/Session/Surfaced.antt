-- ===== src/Session/Surfaced.antt =====
-- api/src/api/session.py: which generated cues are shown (`_generate_cue`).
use tenir.Prelude.{
  ℕ, ◌+◌, ◌-◌, ◌*◌, Bool, true, false, ◌&&◌, ◌||◌, List, [], ◌∷◌, ◌++◌, leb, any, ◌==◌, nat_key,
  list_key, length, keep_if, if◌then◌else◌,
}
use tenir.Prelude.Text.{Text}

abbrev pub cue_substance_min_tokens : ℕ
cue_substance_min_tokens = 5

-- `normalize_cue_title`, `cue_substance_tokens` and `cue_subject_tokens`, a set as a list.
pub record Fingerprints : Type 0 where
  pub norm_title : Text → Text
  pub substance_tokens : Text → Text → List Text
  pub subject_tokens : Text → List Text

pub record GeneratedCue : Type 0 where
  pub cue_title : Text
  pub cue_body : Text

pub record Surfaced : Type 0 where
  pub surfaced_cue_norms : List Text
  pub surfaced_cues : List GeneratedCue
  pub surfaced_cue_substance : List (List Text)
  pub surfaced_cue_subjects : List Text

-- What happened by the time a cue is generated, and by the time its check is over: the row finished, a
-- run or a song came on. Without a check the two are the same.
pub record Meanwhile : Type 0 where
  pub was_finished : Bool
  pub stood_aside : Bool
  pub contradicted : Bool
  pub finished_later : Bool
  pub aside_later : Bool

abbrev pub is_in : List Text → Text → Bool
is_in ws w = any (λ x. x == w) ws

-- `cue_substance_similarity` of at least `_CUE_SUBSTANCE_DUP_THRESHOLD`, 7/20.
abbrev pub shared_tokens : List Text → List Text → ℕ
shared_tokens ws vs = length (keep_if (is_in vs) ws)

unfoldable pub is_similar : List Text → List Text → Bool
is_similar ws vs =
    leb 1 (length ws)
    && (leb 1 (length vs)
        && leb (7 * (length ws + (length vs - shared_tokens ws vs))) (20 * shared_tokens ws vs))

abbrev pub is_dup : List Text → List Text → Bool
is_dup ws prior =
    leb cue_substance_min_tokens (length ws)
    && (leb cue_substance_min_tokens (length prior) && is_similar ws prior)

module _ (prints : Fingerprints) where
  abbrev pub norm_of : GeneratedCue → Text
  norm_of c = prints.norm_title c.cue_title

  abbrev pub substance_of : GeneratedCue → List Text
  substance_of c = prints.substance_tokens c.cue_title c.cue_body

  abbrev pub subjects_of : GeneratedCue → List Text
  subjects_of c = prints.subject_tokens c.cue_title

  -- One of the three layers drops the cue.
  unfoldable pub is_repeat : GeneratedCue → Surfaced → Bool
  is_repeat c s =
      is_in s.surfaced_cue_norms (norm_of c)
      || (any (is_dup (substance_of c)) s.surfaced_cue_substance
          || any (is_in s.surfaced_cue_subjects) (subjects_of c))

  unfoldable pub surface : GeneratedCue → Surfaced → Surfaced
  surface c s = record s {
    surfaced_cue_subjects = s.surfaced_cue_subjects ++ subjects_of c;
    surfaced_cue_norms = s.surfaced_cue_norms ++ (norm_of c ∷ []);
    surfaced_cues = s.surfaced_cues ++ (c ∷ []);
    surfaced_cue_substance = s.surfaced_cue_substance ++ (substance_of c ∷ []);
  }

  abbrev pub is_missing : Text → Bool
  is_missing [] = true
  is_missing (c ∷ cs) = false

  -- `_generate_cue` from the stripped title and body on.
  unfoldable pub offer_cue : GeneratedCue → Meanwhile → Surfaced → Surfaced
  offer_cue c m s =
      if is_missing c.cue_title || is_missing c.cue_body
      then s
      else if m.was_finished || m.stood_aside
      then s
      else if is_repeat c s
      then s
      else if m.contradicted
      then record s { surfaced_cue_norms = s.surfaced_cue_norms ++ (norm_of c ∷ []) }
      else if m.finished_later || m.aside_later
      then s
      else surface c s

  unfoldable pub offer_cues : List (GeneratedCue × Meanwhile) → Surfaced → Surfaced
  offer_cues [] s = s
  offer_cues (o ∷ os) s = offer_cues os (offer_cue o.0 o.1 s)
