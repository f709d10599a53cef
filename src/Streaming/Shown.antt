-- ===== src/Streaming/Shown.antt =====
-- api/src/api/stt/streaming.py: the captions that are queued, and the count behind `finalizing`.
use tenir.Prelude.{
  ℕ, ◌≤◌, ◌==◌, if◌then◌else◌, by_test, ◌+◌, ◌≡◌, ◌≢◌, inl, inr, sym, ap, ◌∙◌, subst, Bool, false,
  not, ◌&&◌, Option, none, some, List, [], ◌∷◌, ◌++◌, List-cases, arith, list_beq_iff, nat_key,
  list_key, Bool-cases, Option-cases,
}
use tenir.Prelude.Text.{Text, strip}
use tenir.Streaming.Cut.{Bytes}
use tenir.Streaming.Engine.{
  partial_stage, World, Decoder, Decoded, answered, failed, out_of_fuel, EngineResult, Caption,
  CaptionFinal, caption_partial, caption_final, run_engine, decode_final,
}
use tenir.Streaming.Finalize.{
  emit_partial, finalize, final_result, after_decode, retry_blank_final, surfaced, put_caption,
  show_partial, is_blank, Served, hand_over, come_back, close,
}
use tenir.Streaming.Quiet.{Quiet, Quiet-refl, Quiet-trans, run_engine-Quiet, decode_final-Quiet}

abbrev pub text_of : Caption → Text
text_of (caption_partial text lang) = text
text_of (caption_final f) = f.text

unfoldable pub finals : List Caption → ℕ
finals [] = 0
finals (caption_partial text lang ∷ cs) = finals cs
finals (caption_final f ∷ cs) = 1 + finals cs

finals-append : (cs ds : List Caption) → finals (cs ++ ds) ≡ finals cs + finals ds
unfolding finals
finals-append [] ds = omega arith
finals-append (caption_partial text lang ∷ cs) ds = finals-append cs ds
finals-append (caption_final f ∷ cs) ds = omega (arith, finals-append cs ds)

-- The captions without text.
unfoldable pub blanks : List Caption → ℕ
blanks [] = 0
blanks (c ∷ cs) = (if text_of c == [] then 1 else 0) + blanks cs

blanks-append : (cs ds : List Caption) → blanks (cs ++ ds) ≡ blanks cs + blanks ds
unfolding blanks
blanks-append [] ds = omega arith
blanks-append (c ∷ cs) ds = omega (arith, blanks-append cs ds)

blanks_says : (c : Caption) → text_of c ≢ [] → blanks (c ∷ []) ≡ 0
unfolding blanks
blanks_says c says =
    by_test (λ n. n + 0 ≡ 0) (text_of c == [])
      (λ blank. absurd (says ((list_beq_iff (text_of c) []).0 blank))) (λ full. omega arith)

-- What the consumer has in its hands.
abbrev pub in_hand : Option Caption → List Caption
in_hand none = []
in_hand (some c) = c ∷ []

-- With what the consumer has in its hands and the number of closes so far: there are no more captions
-- without text than closes, and the count of undelivered finals is that of the finals that are
-- queued or in the consumer's hands.
pub record IsShown (n : Option Caption × ℕ) (s : Decoder) : Type 0 where
  pub saying : blanks s.queue + blanks (in_hand n.0) ≤ n.1
  pub undelivered : s.finals_undelivered ≡ finals s.queue + finals (in_hand n.0)

Quiet-IsShown : (n : Option Caption × ℕ) (s t : Decoder) → Quiet s t → IsShown n s → IsShown n t
Quiet-IsShown n s t k h = record {
  saying = subst (λ q. blanks q + blanks (in_hand n.0) ≤ n.1) (sym k.same_queue) h.saying;
  undelivered =
      k.same_undelivered
      ∙ (h.undelivered ∙ ap (λ q. finals q + finals (in_hand n.0)) (sym k.same_queue));
}

put_partial-IsShown :
    (n : Option Caption × ℕ) (text : Text) (lang : Option Text) (s : Decoder)
    → text ≢ []
    → IsShown n s
    → IsShown n (put_caption (caption_partial text lang) s)
unfolding put_caption finals
put_partial-IsShown n text lang s says h = record {
  saying = omega (
    arith,
    h.saying,
    blanks-append s.queue (caption_partial text lang ∷ []),
    blanks_says (caption_partial text lang) says,
  );
  undelivered =
      omega (arith, h.undelivered, finals-append s.queue (caption_partial text lang ∷ []));
}

put_final-IsShown :
    (n : Option Caption × ℕ) (f : CaptionFinal) (s : Decoder)
    → f.text ≢ []
    → IsShown n s
    → IsShown n
        (put_caption (caption_final f) (record s { finals_undelivered = s.finals_undelivered + 1 }))
unfolding put_caption finals
put_final-IsShown n f s says h = record {
  saying = omega (
    arith,
    h.saying,
    blanks-append s.queue (caption_final f ∷ []),
    blanks_says (caption_final f) says,
  );
  undelivered = omega (arith, h.undelivered, finals-append s.queue (caption_final f ∷ []));
}

close-IsShown :
    (hand : Option Caption) (k : ℕ) (s : Decoder)
    → IsShown (hand, k) s
    → IsShown (hand, k + 1) (close s)
unfolding close put_caption finals blanks
close-IsShown hand k s h = record {
  saying = omega (arith, h.saying, blanks-append s.queue (caption_partial [] none ∷ []));
  undelivered = omega (arith, h.undelivered, finals-append s.queue (caption_partial [] none ∷ []));
}

show_partial-IsShown :
    (n : Option Caption × ℕ) (text : Text) (lang : Option Text) (s : Decoder)
    → IsShown n s
    → IsShown n (show_partial text lang s)
unfolding show_partial
show_partial-IsShown n text lang s h = elim (Bool-cases (is_blank text)) [
  | inl blank ↦ rw (blank, show_partial) h
  | inr says ↦
      rw (says, show_partial)
        (put_partial-IsShown n text lang _ (λ e. ground (arith, list_beq_iff text []))
          (record { saying = h.saying; undelivered = h.undelivered }))
]

surfaced-says :
    (result : EngineResult) (turn_partial : Text) (shown : Text × Bool)
    → surfaced result turn_partial ≡ some shown
    → shown.0 ≢ []
unfolding surfaced
surfaced-says result turn_partial shown e = λ blank.
    grind (arith, list_beq_iff (strip result.text) [], list_beq_iff (strip turn_partial) [])

-- What happens between two awaits: a decode for a partial, one for a final, the consumer gets the
-- next caption, or comes back for the one after, the transcriber is closed.
pub data Act : Type 0 where
  partial_decode : Bytes → Act
  final_decode : Bytes → ℕ → Bool → Act
  gets : Act
  comes_back : Act
  closes : Act

abbrev pub closes_of : Act → ℕ
closes_of closes = 1
closes_of a = 0

unfoldable pub closes_in : List Act → ℕ
closes_in [] = 0
closes_in (a ∷ more) = closes_of a + closes_in more

hand_over-IsShown :
    (k : ℕ) (c : Option Caption) (s : Decoder)
    → IsShown (c, k) s
    → IsShown ((hand_over c s).hand, k) (hand_over c s).decoder
unfolding hand_over finals blanks
hand_over-IsShown k (some c) s h = h
hand_over-IsShown k none s h = elim (List-cases s.queue) [
  | inl empty ↦ rw (empty, hand_over) h
  | inr (c, cs, e) ↦
      rw (e, hand_over)
        (record {
          saying = omega (arith, h.saying, ap blanks e);
          undelivered =
              h.undelivered ∙ (ap (λ q. finals q + 0) e ∙ omega (arith, finals-append (c ∷ []) cs));
        })
]

come_back-IsShown :
    (k : ℕ) (c : Option Caption) (s : Decoder)
    → IsShown (c, k) s
    → IsShown ((come_back c s).hand, k) (come_back c s).decoder
unfolding come_back finals blanks
come_back-IsShown k none s h = h
come_back-IsShown k (some (caption_partial text lang)) s h = record {
  saying = omega (arith, h.saying);
  undelivered = h.undelivered;
}
come_back-IsShown k (some (caption_final f)) s h = record {
  saying = omega (arith, h.saying);
  undelivered = omega (arith, h.undelivered);
}

add_zero : (k : ℕ) → k + 0 ≡ k
add_zero k = omega arith

module _ (world : World) (final_words : Bool) (lower : Text → Text)
    (lang_of : Option Text → Option Text) (detect_lang : Text → Option Text)
    (pinned : Option Text) where
  unfoldable pub act : Act → Served → Served
  act (partial_decode pcm) s = record s {
    decoder = emit_partial world final_words lower lang_of detect_lang pinned pcm s.decoder;
  }
  act (final_decode pcm start has_speech) s = record s {
    decoder =
        finalize world final_words lower lang_of detect_lang pinned pcm start has_speech s.decoder;
  }
  act gets s = hand_over s.hand s.decoder
  act comes_back s = come_back s.hand s.decoder
  act closes s = record s { decoder = close s.decoder }

  unfoldable pub acts : List Act → Served → Served
  acts [] s = s
  acts (a ∷ more) s = acts more (act a s)

  emit_partial-IsShown :
      (n : Option Caption × ℕ) (pcm : Bytes) (s : Decoder)
      → IsShown n s
      → IsShown n (emit_partial world final_words lower lang_of detect_lang pinned pcm s)
  unfolding emit_partial
  emit_partial-IsShown n pcm s h =
      let s1 = (run_engine world final_words partial_stage pcm 0 false s).0 in
      let h1 =
        Quiet-IsShown n s s1 (run_engine-Quiet world final_words partial_stage pcm 0 false s) h in
      elim (Option-cases (run_engine world final_words partial_stage pcm 0 false s).1) [
        | inl raised ↦ rw (raised, emit_partial) h1
        | inr (r, answer) ↦
            rw (answer, emit_partial)
              (elim (Option-cases s1.agreement) [
                | inl legacy ↦ rw legacy (show_partial-IsShown n _ _ s1 h1)
                | inr (agreement, live) ↦ rw live (
                    show_partial-IsShown n _ _ _
                      (record { saying = h1.saying; undelivered = h1.undelivered }))
              ])
      ]

  after_decode-Quiet :
      (pcm : Bytes) (has_speech : Bool) (d : Decoder × Decoded)
      → Quiet d.0
          (after_decode world final_words lower lang_of detect_lang pinned pcm has_speech d).0
  unfolding after_decode retry_blank_final
  after_decode-Quiet pcm has_speech (s, answered r) =
      elim (Bool-cases (is_blank (strip r.text) && (has_speech && not r.non_speech))) [
        | inl blank ↦ rw (blank, after_decode) (run_engine-Quiet world final_words _ pcm _ _ s)
        | inr good ↦ rw (good, after_decode) (Quiet-refl s)
      ]
  after_decode-Quiet pcm has_speech (s, failed) = Quiet-refl s
  after_decode-Quiet pcm has_speech (s, out_of_fuel) = Quiet-refl s

  final_result-Quiet :
      (pcm : Bytes) (has_speech : Bool) (s : Decoder)
      → Quiet s (final_result world final_words lower lang_of detect_lang pinned pcm has_speech s).0
  unfolding final_result
  final_result-Quiet pcm has_speech s =
      let d = decode_final world final_words pcm s in
      Quiet-trans s d.0 _ (decode_final-Quiet world final_words pcm s)
        (after_decode-Quiet pcm has_speech d)

  finalize-IsShown :
      (n : Option Caption × ℕ) (pcm : Bytes) (start : ℕ) (has_speech : Bool) (s : Decoder)
      → IsShown n s
      → IsShown n
          (finalize world final_words lower lang_of detect_lang pinned pcm start has_speech s)
  unfolding finalize
  finalize-IsShown n pcm start has_speech s h =
      let (s1, result) =
        final_result world final_words lower lang_of detect_lang pinned pcm has_speech s in
      let h1 = Quiet-IsShown n s s1 (final_result-Quiet pcm has_speech s) h in
      elim (Option-cases (surfaced result s1.turn_partial)) [
        | inl dropped ↦
            rw (dropped, finalize) (record { saying = h1.saying; undelivered = h1.undelivered })
        | inr (shown, e) ↦
            rw (e, finalize)
              (put_final-IsShown n _ _ (surfaced-says result s1.turn_partial shown e)
                (record { saying = h1.saying; undelivered = h1.undelivered }))
      ]

  act-IsShown :
      (a : Act) (k : ℕ) (s : Served)
      → IsShown (s.hand, k) s.decoder
      → IsShown ((act a s).hand, k + closes_of a) (act a s).decoder
  unfolding act
  act-IsShown (partial_decode pcm) k s h =
      rw (add_zero k) (emit_partial-IsShown (s.hand, k) pcm s.decoder h)
  act-IsShown (final_decode pcm start speech) k s h =
      rw (add_zero k) (finalize-IsShown (s.hand, k) pcm start speech s.decoder h)
  act-IsShown gets k s h = rw (add_zero k) (hand_over-IsShown k s.hand s.decoder h)
  act-IsShown comes_back k s h = rw (add_zero k) (come_back-IsShown k s.hand s.decoder h)
  act-IsShown closes k s h = close-IsShown s.hand k s.decoder h

  -- Whatever the engine answers, and in any order of decodes, closes and steps of the consumer: there
  -- are no more captions without text queued or in the consumer's hands than there were closes, and
  -- the count of undelivered finals is that of the finals that are queued or in the consumer's
  -- hands, so `finalizing` ends only once the last one was handled.
  pub acts-IsShown :
      (more : List Act) (k : ℕ) (s : Served)
      → IsShown (s.hand, k) s.decoder
      → IsShown ((acts more s).hand, k + closes_in more) (acts more s).decoder
  unfolding acts closes_in
  acts-IsShown [] k s h = rw (add_zero k) h
  acts-IsShown (a ∷ more) k s h =
      subst (λ j. IsShown ((acts (a ∷ more) s).hand, j) (acts (a ∷ more) s).decoder) (omega arith)
        (acts-IsShown more (k + closes_of a) (act a s) (act-IsShown a k s h))
