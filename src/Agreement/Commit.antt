-- ===== src/Agreement/Commit.antt =====
-- What the commit policy of api/src/api/stt/agreement.py promises to the viewer of a live caption.
use tenir.Prelude.{
  ℕ, zero, suc, ◌≤◌, ◌<◌, max, min, ◌≡◌, refl, ◌∙◌, ap, sym, some, List, [], ◌∷◌, ◌++◌, map, length,
  take, drop, get_elem?, arith, length-append, length-take, length-drop, length-map, append_assoc,
  take_append_length, drop_of_length-le, drop-take-append-drop, get_elem?-append_drop,
  get_elem?-take, beq_refl, list_key, nat_key, list_beq_iff,
}
use tenir.Prelude.Text.{Text}
use tenir.Agreement.{LocalAgreement, init, common_prefix_len, norm, commit, caption_words}

-- Below the agreed length the two hypotheses are the same word for word.
take_of_lt-common_prefix_len :
    (a b : List Text) (i : ℕ) → i < common_prefix_len a b → take (suc i) a ≡ take (suc i) b
unfolding common_prefix_len
take_of_lt-common_prefix_len [] b i h = absurd (omega arith)
take_of_lt-common_prefix_len (x ∷ a) [] i h = absurd (omega arith)
take_of_lt-common_prefix_len (x ∷ a) (y ∷ b) zero h = ground (arith, list_beq_iff x y)
take_of_lt-common_prefix_len (x ∷ a) (y ∷ b) (suc i) h =
    ground (arith, list_beq_iff x y, take_of_lt-common_prefix_len a b i)

-- A shared prefix is found in full.
le-common_prefix_len :
    (a b : List Text) (k : ℕ)
    → k ≤ length a
    → k ≤ length b
    → take k a ≡ take k b
    → k ≤ common_prefix_len a b
unfolding common_prefix_len
le-common_prefix_len a b zero ha hb e = omega arith
le-common_prefix_len [] b (suc k) ha hb e = absurd (omega arith)
le-common_prefix_len (x ∷ a) [] (suc k) ha hb e = absurd (omega arith)
le-common_prefix_len (x ∷ a) (y ∷ b) (suc k) ha hb e =
    ground (arith, list_beq_iff x y, le-common_prefix_len a b k)

common_prefix_len_self : (a : List Text) → common_prefix_len a a ≡ length a
unfolding common_prefix_len
common_prefix_len_self [] = refl
common_prefix_len_self (x ∷ a) = rw (beq_refl x, common_prefix_len_self a)

module _ (lower : Text → Text) where
  -- The committed list grows to what both hypotheses agree on, and never shrinks.
  length-commit :
      (s : LocalAgreement) (h : List Text)
      → length (commit lower s h).committed
        ≡ max
            (length s.committed)
            (min (common_prefix_len s.prev_norm (map (norm lower) h)) (length h))
  unfolding commit
  length-commit s h = omega (arith, length-append {0}, length-drop {0}, length-take {0})

  -- Whatever the new hypothesis says, the words that were committed stay, in their place and
  -- spelling: the new committed list only adds words behind them.
  commit-keeps :
      (s : LocalAgreement) (h : List Text)
      → take (length s.committed) (commit lower s h).committed ≡ s.committed
  unfolding commit
  commit-keeps s h = take_append_length s.committed _

  commit_adds :
      (s : LocalAgreement) (h : List Text) (i : ℕ) (w : Text)
      → length s.committed ≤ i
      → get_elem? (commit lower s h).committed i ≡ some w
      → (get_elem? h i ≡ some w) × (take (suc i) s.prev_norm ≡ take (suc i) (map (norm lower) h))
  commit_adds s h i w le at =
      let new_n =
        max (length s.committed)
          (min (common_prefix_len s.prev_norm (map (norm lower) h)) (length h)) in
      let got =
        get_elem?-take new_n h i {x = w}
          (sym (get_elem?-append_drop s.committed (take new_n h) i le) ∙ unfold commit in at) in
      (got.1, take_of_lt-common_prefix_len s.prev_norm (map (norm lower) h) i (omega arith))

  -- After the first hypothesis nothing is committed. A word that `commit` adds when the hypothesis
  -- `h` comes after `g` stands at the same place in `h`, and `g` and `h` agree, after normalizing, on
  -- every word up to it.
  pub commit_agreed :
      (s : LocalAgreement) (g h : List Text) (i : ℕ) (w : Text)
      → length (commit lower s g).committed ≤ i
      → get_elem? (commit lower (commit lower s g) h).committed i ≡ some w
      → ((commit lower init g).committed ≡ [])
        × (get_elem? h i ≡ some w)
        × (take (suc i) (map (norm lower) g) ≡ take (suc i) (map (norm lower) h))
  unfolding commit common_prefix_len
  commit_agreed s g h i w le at =
      let (added, agreed) = commit_adds (commit lower s g) h i w le at in
      (ap (λ n. take n g) {y = 0} (omega arith), added, agreed)

  -- What two hypotheses in a row agree on is committed: none of it waits for a third.
  commit_complete :
      (s : LocalAgreement) (h : List Text) (k : ℕ)
      → k ≤ length s.prev_norm
      → k ≤ length h
      → take k s.prev_norm ≡ take k (map (norm lower) h)
      → k ≤ length (commit lower s h).committed
  commit_complete s h k hp hh e = omega (
    arith,
    length-commit s h,
    length-map (norm lower) h,
    le-common_prefix_len s.prev_norm (map (norm lower) h) k hp
        (omega (arith, length-map (norm lower) h)) e,
  )

  -- The caption is the committed words and then the rest of the new hypothesis: no word of the
  -- hypothesis past the committed ones is lost or shown twice.
  caption_words-commit :
      (s : LocalAgreement) (h : List Text)
      → caption_words (commit lower s h) ≡ s.committed ++ drop (length s.committed) h
  unfolding caption_words commit
  caption_words-commit s h =
      rw append_assoc (ap (λ t. s.committed ++ t) (drop-take-append-drop _ _ h (omega arith)))

  -- A hypothesis that comes twice in a row leaves nothing tentative.
  commit_twice :
      (s : LocalAgreement) (h : List Text) → (commit lower (commit lower s h) h).pending ≡ []
  unfolding commit
  commit_twice s h =
      drop_of_length-le _ h
        (omega (arith, common_prefix_len_self (map (norm lower) h), length-map (norm lower) h))
