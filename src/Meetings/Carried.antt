-- ===== src/Meetings/Carried.antt =====
-- api/src/api/screen/meetings.py: what is kept of a window whose tracker was dropped.
use tenir.Prelude.{
  ℕ, ◌≤◌, ◌≡◌, ◌≢◌, ◌∙◌, ap, refl, Option, none, some, List, [], ◌∷◌, ◌++◌, length, Key, beq_refl,
  arith, nat_key, list_key,
}
use tenir.Prelude.Dict.{Dict, lookup, insert, remove, lookup-remove}
use tenir.Meetings.Tracker.{Tracker}
use tenir.Meetings.Windows.{
  max_carries, evict, WindowKey, Tracked, Windows, with_carried, put_new, put_at, put_tracker,
  carry_lines, drop_tracker,
}

length-evict {ℓ} : {A : Type ℓ} (cap : ℕ) (xs : List A) → length (evict cap xs) ≤ cap
length-evict cap [] = omega arith
length-evict cap (x ∷ xs) = ground (arith, length-evict cap xs)

module _ {K V : Type 0} ⦃e : Key K⦄ where
  insert_absent :
      (key : K) (v : V) (d : Dict K V) → lookup key d ≡ none → insert key v d ≡ d ++ ((key, v) ∷ [])
  unfolding lookup insert
  insert_absent key v [] h = refl
  insert_absent key v ((j, w) ∷ d) h = ground (arith, h, insert_absent key v d)

  lookup-append_last :
      (key : K) (v : V) (d : Dict K V)
      → lookup key d ≡ none
      → lookup key (d ++ ((key, v) ∷ [])) ≡ some v
  unfolding lookup
  lookup-append_last key v [] h = rw (beq_refl key) refl
  lookup-append_last key v ((j, w) ∷ d) h = ground (arith, h, lookup-append_last key v d)

  -- The newest entry stays.
  lookup-evict :
      (cap : ℕ) (key : K) (v : V) (d : Dict K V)
      → 1 ≤ cap
      → lookup key d ≡ none
      → lookup key (evict cap (d ++ ((key, v) ∷ []))) ≡ some v
  unfolding lookup
  lookup-evict cap key v [] h absent = ground (arith, h, beq_refl key)
  lookup-evict cap key v ((j, w) ∷ d) h absent =
      ground (arith, absent, lookup-evict cap key v d h, lookup-append_last key v d)

  length-remove : (key : K) (d : Dict K V) → length (remove key d) ≤ length d
  unfolding remove
  length-remove key [] = omega arith
  length-remove key ((j, w) ∷ d) = ground (arith, length-remove key d)

  lookup-renewed :
      (cap : ℕ) (key : K) (v : V) (d : Dict K V)
      → 1 ≤ cap
      → lookup key (evict cap (insert key v (remove key d))) ≡ some v
  lookup-renewed cap key v d h =
      let gone : lookup key (remove key d) ≡ none =
        ground (arith, lookup-remove key key d, beq_refl key) in
      ap (λ x. lookup key (evict cap x)) (insert_absent key v (remove key d) gone)
      ∙ lookup-evict cap key v (remove key d) h gone

-- What can happen to the windows: a tracker comes, or one is dropped.
pub data Change (M L R : Type 0) : Type 0 where
  puts : WindowKey → Tracker M L R → ℕ → Change M L R
  drops : WindowKey → Tracker M L R → Change M L R

module _ (M L R : Type 0) where
  unfoldable pub change : Change M L R → Windows M L R → Windows M L R
  change (puts key t new) s = (put_tracker M L R key t new s).1
  change (drops key t) s = drop_tracker M L R key t s

  unfoldable pub changes : List (Change M L R) → Windows M L R → Windows M L R
  changes [] s = s
  changes (c ∷ cs) s = changes cs (change c s)

  -- Neither the carries nor the budgets outgrow their cap.
  abbrev pub IsCapped : Windows M L R → Type 0
  IsCapped s = (length s.carries ≤ max_carries) × (length s.budgets ≤ max_carries)

  put_at-IsCapped :
      (o : Option (Tracked M L R)) (key : WindowKey) (t : Tracker M L R) (new : ℕ)
      (s : Windows M L R)
      → IsCapped s
      → IsCapped (put_at M L R o key t new s).1
  unfolding put_new
  put_at-IsCapped none key t new s capped =
      (omega (arith, capped.0, length-remove key s.carries), length-evict max_carries _)
  put_at-IsCapped (some kept) key t new s capped = capped

  length-carry_lines :
      (key : WindowKey) (ls : List L) (carries : Dict WindowKey (List L))
      → length carries ≤ max_carries
      → length (carry_lines M L R key ls carries) ≤ max_carries
  length-carry_lines key [] carries h = h
  length-carry_lines key (l ∷ ls) carries h = length-evict max_carries _

  change-IsCapped : (c : Change M L R) (s : Windows M L R) → IsCapped s → IsCapped (change c s)
  unfolding change put_tracker drop_tracker
  change-IsCapped (puts key t new) s capped =
      put_at-IsCapped (lookup key s.trackers) key t new s capped
  change-IsCapped (drops key t) s capped =
      (length-carry_lines key t.ended_lines s.carries capped.0, capped.1)

  -- No changes bring more than a thousand carries or budgets.
  changes-IsCapped :
      (cs : List (Change M L R)) (s : Windows M L R) → IsCapped s → IsCapped (changes cs s)
  unfolding changes
  changes-IsCapped [] s capped = capped
  changes-IsCapped (c ∷ cs) s capped = changes-IsCapped cs (change c s) (change-IsCapped c s capped)

  lookup-carry_lines :
      (key : WindowKey) (ls : List L) (carries : Dict WindowKey (List L))
      → ls ≢ []
      → lookup key (carry_lines M L R key ls carries) ≡ some ls
  unfolding max_carries
  lookup-carry_lines key [] carries h = absurd (h refl)
  lookup-carry_lines key (l ∷ ls) carries h = lookup-renewed 1000 key (l ∷ ls) carries (omega arith)

  -- A tracker that comes for a window gets the lines of the tracker that was dropped there last.
  put_tracker-drop_tracker :
      (key : WindowKey) (old t : Tracker M L R) (new : ℕ) (s : Windows M L R)
      → old.ended_lines ≢ []
      → (put_tracker M L R key t new (drop_tracker M L R key old s)).0.tracker.ended_lines
        ≡ old.ended_lines
  unfolding put_tracker put_new drop_tracker
  put_tracker-drop_tracker key old t new s lines =
      let s' = drop_tracker M L R key old s in
      let gone : lookup key (remove key s.trackers) ≡ none =
        ground (arith, lookup-remove key key s.trackers, beq_refl key) in
      ap (λ o. (put_at M L R o key t new s').0.tracker.ended_lines) gone
      ∙ ap (λ o. (with_carried M L R o t).ended_lines)
          (lookup-carry_lines key old.ended_lines s.carries lines)
