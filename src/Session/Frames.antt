-- ===== src/Session/Frames.antt =====
-- api/src/api/session.py: the frames of a session in the order of their first writes.
use mathlib.Core.List.Sublist
use mathlib.Core.List.{Sublist, sublist-append_right}
use tenir.Prelude.{
  ℕ, ◌-◌, ◌≤◌, ◌≡◌, refl, sym, ap, subst, ◌∙◌, Bool, true, false, Option, none, some, List, [], ◌∷◌,
  ◌++◌, map, ltb, drop, length, keep_if, append_assoc, by_test, arith, length-drop, take,
  take-append-drop,
}
use tenir.Session.Outbox.{
  Written, fresh, again, Outbox, capped, in_window, replayed, OutboxEvent, emits,
  detached_buffer_max,
}

drop-Sublist {ℓ} : {A : Type ℓ} (n : ℕ) (xs : List A) → Sublist (drop n xs) xs
drop-Sublist n xs =
    subst (λ ys. Sublist (drop n xs) ys) (take-append-drop n xs)
      (sublist-append_right (take n xs) (drop n xs))

module _ {M : Type 0} where
  -- The frames that are written for the first time.
  unfoldable pub firsts : List (Written M) → List M
  firsts [] = []
  firsts (fresh m ∷ fs) = m ∷ firsts fs
  firsts (again m ∷ fs) = firsts fs

  pub firsts-append : (fs gs : List (Written M)) → firsts (fs ++ gs) ≡ firsts fs ++ firsts gs
  unfolding firsts
  firsts-append [] gs = refl
  firsts-append (fresh m ∷ fs) gs = ap (◌∷◌ m) (firsts-append fs gs)
  firsts-append (again m ∷ fs) gs = firsts-append fs gs

  pub firsts-map : (ms : List M) → firsts (map fresh ms) ≡ ms
  unfolding firsts
  firsts-map [] = refl
  firsts-map (m ∷ ms) = ap (◌∷◌ m) (firsts-map ms)

  firsts_again : (sent : List (ℕ × M)) → firsts (map (λ x. again x.1) sent) ≡ []
  unfolding firsts
  firsts_again [] = refl
  firsts_again (x ∷ sent) = firsts_again sent

  pub firsts-replayed : (b : Bool) (at : ℕ) (sent : List (ℕ × M)) → firsts (replayed b at sent) ≡ []
  unfolding firsts
  firsts-replayed true at sent = firsts_again (keep_if (in_window at) sent)
  firsts-replayed false at sent = refl

  abbrev pub rest_of : Option (List (Written M)) → List (Written M)
  rest_of none = []
  rest_of (some fs) = fs

  -- What reached a socket first, then what the rebind under way has taken, then the buffer.
  abbrev pub in_order : Outbox M → List M
  in_order s = firsts s.written ++ (firsts (rest_of s.catching) ++ s.detached_buffer)

  -- The frames that the events emit.
  abbrev pub emitted_of : OutboxEvent M → List M
  emitted_of (emits m) = m ∷ []
  emitted_of e = []

  unfoldable pub emitted : List (OutboxEvent M) → List M
  emitted [] = []
  emitted (e ∷ es) = emitted_of e ++ emitted es

  -- Frames are in the order of `sent`, each at most once, and the buffer and what a rebind has taken
  -- of it each keep the bound of the buffer; outside a rebind nothing waits behind a socket that is still written to.
  pub record IsOrdered (sent : List M) (s : Outbox M) : Type 0 where
    pub order : Sublist (in_order s) sent
    pub bounded : length s.detached_buffer ≤ 500
    pub taken_bounded : length (firsts (rest_of s.catching)) ≤ 500
    pub quiet : s.buffering ≡ false → s.alive ≡ true → s.detached_buffer ≡ []
    pub settled : s.buffering ≡ false → s.catching ≡ none

  pub join_assoc : (ws ps bs ms : List M) → ws ++ (ps ++ (bs ++ ms)) ≡ (ws ++ (ps ++ bs)) ++ ms
  join_assoc ws ps bs ms =
      ap (λ x. ws ++ x) (sym (append_assoc ps bs ms)) ∙ sym (append_assoc ws (ps ++ bs) ms)

  pub capped-Sublist : (ms : List M) → Sublist (capped ms) ms
  capped-Sublist ms =
      by_test (λ x. Sublist x ms) (ltb detached_buffer_max (length ms))
        (λ over. drop-Sublist (length ms - detached_buffer_max) ms) (λ fits. Sublist.refl ms)

  pub length-capped : (ms : List M) → length (capped ms) ≤ 500
  length-capped ms =
      by_test (λ x. length x ≤ 500) (ltb detached_buffer_max (length ms))
        (λ over. ground (arith, length-drop (length ms - detached_buffer_max) ms))
        (λ fits. ground (arith, fits))
