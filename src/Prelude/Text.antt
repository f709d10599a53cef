-- ===== src/Prelude/Text.antt =====
-- Python's `str` as the list of its code points, and the methods of it that the program calls. The
-- case mappings are parameters of their callers: their tables are the Unicode database.
use Prim.Native.Nat.{ℕ, zero, suc, ◌+◌, ◌-◌}
use Prim.Native.Char.{code}
use Prim.Native.String.{String}
use mathlib.Core.Bool.{Bool, true, false, ◌&&◌, ◌||◌}
use mathlib.Core.List.{List, [], ◌∷◌, ◌++◌}
use tenir.Prelude.Tests.{◌==◌, leb, if◌then◌else◌, nat_key}
use tenir.Prelude.Lists.{any, length}

abbrev pub Text : Type 0
Text = List ℕ

abbrev pub codes : String → Text
codes String.[] = []
codes (String.◌∷◌ c s) = code c ∷ codes s

-- `str.isspace` of one character.
unfoldable pub is_space : ℕ → Bool
is_space c =
    (leb 0x09 c && leb c 0x0d)
    || (leb 0x1c c && leb c 0x20)
    || c == 0x85
    || c == 0xa0
    || c == 0x1680
    || (leb 0x2000 c && leb c 0x200a)
    || c == 0x2028
    || c == 0x2029
    || c == 0x202f
    || c == 0x205f
    || c == 0x3000

-- `str.lstrip` and `str.rstrip` by a test on the end character; `strip(chars)` and `strip()`.
unfoldable pub lstrip_if : (ℕ → Bool) → Text → Text
lstrip_if p [] = []
lstrip_if p (c ∷ cs) = if p c then lstrip_if p cs else c ∷ cs

unfoldable pub rstrip_if : (ℕ → Bool) → Text → Text
rstrip_if p [] = []
rstrip_if p (c ∷ cs) = elim (rstrip_if p cs) [
  | [] ↦ if p c then [] else c ∷ []
  | d ∷ ds ↦ c ∷ d ∷ ds
]

unfoldable pub strip_chars : List ℕ → Text → Text
unfolding lstrip_if rstrip_if
strip_chars chars t =
    rstrip_if (λ c. any (λ d. c == d) chars) (lstrip_if (λ c. any (λ d. c == d) chars) t)

unfoldable pub strip : Text → Text
unfolding lstrip_if rstrip_if is_space
strip t = rstrip_if is_space (lstrip_if is_space t)

-- `str.startswith`
unfoldable pub starts_with : Text → Text → Bool
starts_with [] t = true
starts_with (p ∷ ps) [] = false
starts_with (p ∷ ps) (c ∷ cs) = (p == c) && starts_with ps cs

-- `str.split()`: the words between white space; `word` holds the current one.
split_from : Text → Text → List Text
split_from word [] = elim word [ [] ↦ [] | w ∷ ws ↦ (w ∷ ws) ∷ [] ]
split_from word (c ∷ cs) =
    let rest = split_from [] cs in
    let longer = split_from (word ++ (c ∷ [])) cs in
    if is_space c then (elim word [ [] ↦ rest | w ∷ ws ↦ (w ∷ ws) ∷ rest ]) else longer

unfoldable pub split_words : Text → List Text
unfolding split_from is_space
split_words t = split_from [] t

-- `sep.join(words)`
unfoldable pub join : Text → List Text → Text
join sep [] = []
join sep (w ∷ []) = w
join sep (w ∷ v ∷ ws) = w ++ (sep ++ join sep (v ∷ ws))

-- `text.count(term)` for a term that is not empty: occurrences that do not overlap; `skip` is how
-- much of the last one is still to pass.
unfoldable pub count_from : Text → ℕ → Text → ℕ
unfolding starts_with
count_from term skip [] = 0
count_from term (suc skip) (c ∷ cs) = count_from term skip cs
count_from term zero (c ∷ cs) =
    let hit = starts_with term (c ∷ cs) in
    (if hit then 1 else 0) + count_from term (if hit then length term - 1 else 0) cs
