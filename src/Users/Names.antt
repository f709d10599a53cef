-- ===== src/Users/Names.antt =====
-- api/src/api/auth/users.py: which usernames are accepted, and the form that they are stored and
-- looked up by. The Unicode database comes in as a parameter: NFKC, the lower case, and the
-- categories of a character.
use tenir.Prelude.{
  ℕ, Bool, ◌&&◌, ◌||◌, not, Option, none, some, List, [], ◌∷◌, any, ◌==◌, leb, list_key, nat_key,
  if◌then◌else◌,
}
use tenir.Prelude.Text.{Text, strip}

pub record Unicode : Type 0 where
  pub nfkc : Text → Text
  pub lower : Text → Text
  pub is_unprintable : ℕ → Bool
  pub is_mark : ℕ → Bool

-- `_IGNORABLE_RANGES`
abbrev pub ignorable_ranges : List (ℕ × ℕ)
ignorable_ranges =
    (0x034f, 0x034f)
    ∷ (0x115f, 0x1160)
    ∷ (0x17b4, 0x17b5)
    ∷ (0x180b, 0x180f)
    ∷ (0x2065, 0x2065)
    ∷ (0x3164, 0x3164)
    ∷ (0xfe00, 0xfe0f)
    ∷ (0xffa0, 0xffa0)
    ∷ (0xfff0, 0xfff8)
    ∷ (0x1d173, 0x1d17a)
    ∷ (0xe0000, 0xe0fff)
    ∷ []

unfoldable pub is_lookup_safe : Text → Bool
is_lookup_safe value =
    not (any (λ c. c == 0) value) && not (any (λ c. leb 0xd800 c && leb c 0xdfff) value)

-- `_norm`: none for nothing and for a blank string.
abbrev pub nonempty : Text → Option Text
nonempty [] = none
nonempty (c ∷ cs) = some (c ∷ cs)

module _ (unicode : Unicode) where
  unfoldable pub normalize_username : Text → Text
  normalize_username username = strip (unicode.nfkc username)

  -- `_is_invisible`
  unfoldable pub is_invisible : ℕ → Bool
  is_invisible c = unicode.is_unprintable c || any (λ r. leb r.0 c && leb c r.1) ignorable_ranges

  -- none where `InvalidUserValue` is raised
  unfoldable pub new_username : Text → Option Text
  new_username username =
      let normalized = normalize_username username in
      if not (is_lookup_safe username)
        || (normalized == []
            || (any is_invisible normalized || not (any (λ c. not (unicode.is_mark c)) normalized)))
      then none
      else some normalized

  unfoldable pub renamed_username : Text → Option Text → Option Text
  renamed_username current none = some current
  renamed_username current (some requested) =
      if strip requested == current then some current else new_username requested

  unfoldable pub norm : Option Text → Option Text
  norm none = none
  norm (some value) = elim (strip value) [ [] ↦ none | c ∷ cs ↦ some (unicode.lower (c ∷ cs)) ]

  -- The key of the username index.
  unfoldable pub username_key : Text → Text
  username_key username = unicode.lower (strip username)
