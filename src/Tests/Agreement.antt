-- ===== src/Tests/Agreement.antt =====
-- Runs of api/src/api/stt/agreement.py.
use tenir.Prelude.{
  ◌+◌, ◌≡◌, refl, List, [], ◌∷◌, map, take, get_elem?, some, arith, if◌then◌else◌, ◌&&◌, leb,
}
use tenir.Prelude.Text.{Text, codes}
use tenir.Agreement.{LocalAgreement, init, common_prefix_len, norm, commit}
use tenir.Agreement.Commit.{commit_agreed}

-- `str.lower` on ASCII letters.
abbrev ascii_lower : Text → Text
ascii_lower = map (λ c. if leb 0x41 c && leb c 0x5a then c + 0x20 else c)

abbrev first : List Text
first = codes "So" ∷ codes "the" ∷ codes "sun" ∷ []

abbrev second : List Text
second = codes "So," ∷ codes "The" ∷ codes "sum" ∷ codes "is" ∷ []

heard_once : LocalAgreement
unfolding commit
heard_once = commit ascii_lower init first

heard_twice : LocalAgreement
unfolding heard_once
heard_twice = commit ascii_lower heard_once second

-- "So," and "The" agree with "So" and "the"; "sum" does not agree with "sun".
heard_twice_words :
    (heard_twice.committed ≡ codes "So," ∷ codes "The" ∷ [])
    × (heard_twice.pending ≡ codes "sum" ∷ codes "is" ∷ [])
unfolding heard_twice norm common_prefix_len
heard_twice_words = (refl, refl)

commit_agreed_example :
    ((commit ascii_lower init first).committed ≡ [])
    × (get_elem? second 1 ≡ some (codes "The"))
    × (take 2 (map (norm ascii_lower) first) ≡ take 2 (map (norm ascii_lower) second))
unfolding commit norm common_prefix_len
commit_agreed_example =
    commit_agreed ascii_lower init first second 1 (codes "The") (omega arith) refl
