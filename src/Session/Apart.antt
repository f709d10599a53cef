-- ===== src/Session/Apart.antt =====
-- api/src/api/session.py: no two cues that a session shows are about the same.
use tenir.Prelude.{
  All, ◌≡◌, ◌≢◌, inl, inr, refl, ap, subst, ◌∙◌, Bool, false, ◌||◌, List, [], ◌∷◌, ◌++◌, map, any,
  nat_key, list_key, arith, by_test, All-append,
}
use tenir.Prelude.Elem.{Elem, Elem-append, any-Elem}
use tenir.Prelude.Text.{Text}
use tenir.Session.Surfaced.{
  Fingerprints, GeneratedCue, Surfaced, Meanwhile, is_in, is_dup, norm_of, substance_of,
  subjects_of, is_repeat, surface, is_missing, offer_cue, offer_cues,
}

module _ (prints : Fingerprints) where
  -- Another normalized title, no subject word in common, and no fingerprint that is much the same.
  pub record IsApart (c d : GeneratedCue) : Type 0 where
    pub titles : norm_of prints c ≢ norm_of prints d
    pub subjects : (w : Text) → Elem w (subjects_of prints d) → ¬ Elem w (subjects_of prints c)
    pub substances : is_dup (substance_of prints d) (substance_of prints c) ≡ false

  abbrev pub ArePairsApart : List GeneratedCue → Type 0
  ArePairsApart [] = Unit {0}
  ArePairsApart (c ∷ cs) = All (IsApart c) cs × ArePairsApart cs

  abbrev pub IsNoted : Surfaced → GeneratedCue → Type 0
  IsNoted s c =
      Elem (norm_of prints c) s.surfaced_cue_norms
      × ((w : Text) → Elem w (subjects_of prints c) → Elem w s.surfaced_cue_subjects)

  pub record IsSurfaced (s : Surfaced) : Type 0 where
    pub pairs : ArePairsApart s.surfaced_cues
    pub noted : All (IsNoted s) s.surfaced_cues
    pub prints_of : s.surfaced_cue_substance ≡ map (substance_of prints) s.surfaced_cues

  pairs-snoc :
      (cs : List GeneratedCue) (d : GeneratedCue)
      → ArePairsApart cs
      → All (λ c. IsApart c d) cs
      → ArePairsApart (cs ++ (d ∷ []))
  pairs-snoc [] d pairs new = (tt, tt)
  pairs-snoc (c ∷ cs) d pairs new =
      (All-append (IsApart c) cs (d ∷ []) pairs.0 (new.0, tt), pairs-snoc cs d pairs.1 new.1)

  not_any :
      (p : Text → Bool) (ws : List Text) (w : Text) → any p ws ≡ false → Elem w ws → p w ≡ false
  not_any p [] w none_is at = absurd at
  not_any p (x ∷ xs) w none_is (inl e) = ap p e ∙ ground (arith, none_is)
  not_any p (x ∷ xs) w none_is (inr at) = not_any p xs w (ground (arith, none_is)) at

  new_cue :
      (cs : List GeneratedCue) (d : GeneratedCue) (s : Surfaced)
      → ¬ Elem (norm_of prints d) s.surfaced_cue_norms
      → ((w : Text) → Elem w (subjects_of prints d) → ¬ Elem w s.surfaced_cue_subjects)
      → any (is_dup (substance_of prints d)) (map (substance_of prints) cs) ≡ false
      → All (IsNoted s) cs
      → All (λ c. IsApart c d) cs
  new_cue [] d s title subject dup noted = tt
  new_cue (c ∷ cs) d s title subject dup noted = (
    record {
      titles = λ e. title (subst (λ x. Elem x s.surfaced_cue_norms) e noted.0.0);
      subjects = λ w at_d at_c. subject w at_d (noted.0.1 w at_c);
      substances = ground (arith, dup);
    },
    new_cue cs d s title subject (ground (arith, dup)) noted.1,
  )

  IsNoted-more :
      (cs : List GeneratedCue) (s s' : Surfaced)
      → ((x : Text) → Elem x s.surfaced_cue_norms → Elem x s'.surfaced_cue_norms)
      → ((x : Text) → Elem x s.surfaced_cue_subjects → Elem x s'.surfaced_cue_subjects)
      → All (IsNoted s) cs
      → All (IsNoted s') cs
  IsNoted-more [] s s' titles subjects noted = tt
  IsNoted-more (c ∷ cs) s s' titles subjects noted = (
    (titles _ noted.0.0, λ w at. subjects w (noted.0.1 w at)),
    IsNoted-more cs s s' titles subjects noted.1,
  )

  more : (x : Text) (xs ys : List Text) → Elem x xs → Elem x (xs ++ ys)
  more x xs ys at = (Elem-append x xs ys).1 (inl at)

  map-snoc :
      (cs : List GeneratedCue) (d : GeneratedCue)
      → map (substance_of prints) cs ++ (substance_of prints d ∷ [])
        ≡ map (substance_of prints) (cs ++ (d ∷ []))
  map-snoc [] d = refl
  map-snoc (c ∷ cs) d = ap (◌∷◌ (substance_of prints c)) (map-snoc cs d)

  surface-IsSurfaced :
      (d : GeneratedCue) (s : Surfaced)
      → is_repeat prints d s ≡ false
      → IsSurfaced s
      → IsSurfaced (surface prints d s)
  unfolding is_repeat surface
  surface-IsSurfaced d s new h =
      let title : is_in s.surfaced_cue_norms (norm_of prints d) ≡ false = ground (arith, new) in
      let dup : any (is_dup (substance_of prints d)) s.surfaced_cue_substance ≡ false =
        ground (arith, new) in
      let subject : any (is_in s.surfaced_cue_subjects) (subjects_of prints d) ≡ false =
        ground (arith, new) in
      record {
        pairs = pairs-snoc s.surfaced_cues d h.pairs (
            new_cue s.surfaced_cues d s
              (λ at. absurd (cc (title, (any-Elem (norm_of prints d) s.surfaced_cue_norms).1 at)))
              (λ w at at_s. absurd (
                cc (
                  not_any (is_in s.surfaced_cue_subjects) (subjects_of prints d) w subject at,
                  (any-Elem w s.surfaced_cue_subjects).1 at_s,
                )))
              (subst (λ x. any (is_dup (substance_of prints d)) x ≡ false) h.prints_of dup)
              h.noted);
        noted =
            All-append (IsNoted (surface prints d s)) s.surfaced_cues (d ∷ [])
              (IsNoted-more s.surfaced_cues s (surface prints d s) (λ x at. more x _ _ at)
                (λ x at. more x _ _ at) h.noted)
              (
                (
                  (Elem-append _ s.surfaced_cue_norms _).1 (inr (inl refl)),
                  λ w at. (Elem-append w s.surfaced_cue_subjects _).1 (inr at),
                ),
                tt,
              );
        prints_of =
            ap (λ x. x ++ (substance_of prints d ∷ [])) h.prints_of ∙ map-snoc s.surfaced_cues d;
      }

  offer_cue-IsSurfaced :
      (c : GeneratedCue) (m : Meanwhile) (s : Surfaced)
      → IsSurfaced s
      → IsSurfaced (offer_cue prints c m s)
  unfolding offer_cue
  offer_cue-IsSurfaced c m s h =
      by_test IsSurfaced (is_missing prints c.cue_title || is_missing prints c.cue_body)
        (λ blank. h)
        (λ full.
          by_test IsSurfaced (m.was_finished || m.stood_aside) (λ off. h)
            (λ on.
              by_test IsSurfaced (is_repeat prints c s) (λ old. h)
                (λ new.
                  by_test IsSurfaced m.contradicted
                    (λ wrong. record {
                      pairs = h.pairs;
                      noted =
                          IsNoted-more s.surfaced_cues s
                            (record s {
                              surfaced_cue_norms = s.surfaced_cue_norms ++ (norm_of prints c ∷ []);
                            })
                            (λ x at. more x _ _ at) (λ x at. at) h.noted;
                      prints_of = h.prints_of;
                    })
                    (λ right.
                      by_test IsSurfaced (m.finished_later || m.aside_later) (λ off. h)
                        (λ on'. surface-IsSurfaced c s new h)))))

  -- Over any generated cues, no two that are shown share a normalized title or a subject word, or have
  -- fingerprints of five words or more that are alike by seven in twenty.
  pub offer_cues-IsSurfaced :
      (os : List (GeneratedCue × Meanwhile)) (s : Surfaced)
      → IsSurfaced s
      → IsSurfaced (offer_cues prints os s)
  unfolding offer_cues
  offer_cues-IsSurfaced [] s h = h
  offer_cues-IsSurfaced (o ∷ os) s h =
      offer_cues-IsSurfaced os (offer_cue prints o.0 o.1 s) (offer_cue-IsSurfaced o.0 o.1 s h)
