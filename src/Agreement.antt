-- ===== src/Agreement.antt =====
-- api/src/api/stt/agreement.py: the LocalAgreement-2 commit of live captions. A Python `str` is
-- its list of code points; `str.lower` is a parameter, because its table is the Unicode database.
pub mod Commit
use tenir.Prelude.{
  ℕ, zero, suc, ◌-◌, max, min, Bool, true, false, List, [], ◌∷◌, ◌++◌, map, length, take, drop, any,
  ◌==◌, if◌then◌else◌, nat_key, list_key,
}
use tenir.Prelude.Text.{Text, strip_chars}

-- `_EDGE_PUNCT`: "'“”‘’.,!?;:…()[]{}«»—–-·
abbrev pub edge_punct : List ℕ
edge_punct =
    0x22 ∷ 0x27 ∷ 0x201c ∷ 0x201d ∷ 0x2018 ∷ 0x2019 ∷ 0x2e ∷ 0x2c ∷ 0x21 ∷ 0x3f ∷ 0x3b ∷ 0x3a
    ∷ 0x2026 ∷ 0x28 ∷ 0x29 ∷ 0x5b ∷ 0x5d ∷ 0x7b ∷ 0x7d ∷ 0xab ∷ 0xbb ∷ 0x2014 ∷ 0x2013 ∷ 0x2d ∷ 0xb7
    ∷ []

-- `_common_prefix_len`
unfoldable pub common_prefix_len : List Text → List Text → ℕ
common_prefix_len [] b = 0
common_prefix_len (x ∷ a) [] = 0
common_prefix_len (x ∷ a) (y ∷ b) = if x == y then suc (common_prefix_len a b) else 0

pub record LocalAgreement : Type 0 where
  pub committed : List Text
  pub pending : List Text
  pub prev_norm : List Text

-- `__init__`
abbrev pub init : LocalAgreement
init = record { committed = []; pending = []; prev_norm = [] }

module _ (lower : Text → Text) where
  -- `_norm`
  unfoldable pub norm : Text → Text
  unfolding strip_chars
  norm token = lower (strip_chars edge_punct token)

  unfoldable pub commit : LocalAgreement → List Text → LocalAgreement
  commit s hypothesis =
      let normed = map norm hypothesis in
      let agreed = common_prefix_len s.prev_norm normed in
      let n = length s.committed in
      let new_n = max n (min agreed (length hypothesis)) in
      record {
        committed = s.committed ++ drop n (take new_n hypothesis);
        pending = drop new_n hypothesis;
        prev_norm = normed;
      }

-- The words of `caption_text`.
unfoldable pub caption_words : LocalAgreement → List Text
caption_words s = s.committed ++ s.pending
