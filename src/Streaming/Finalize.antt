-- ===== src/Streaming/Finalize.antt =====
-- api/src/api/stt/streaming.py: what becomes of the engine's answers, the partials and finals that
-- are shown. `lang_of` is the map into the contract's languages and `detect_lang` the identification
-- by text; the id that a final gets stands outside.
use tenir.Prelude.{
  ℕ, ◌+◌, ◌-◌, Bool, true, false, ◌&&◌, ◌||◌, not, Option, none, some, List, [], ◌∷◌, ◌++◌, map,
  length, ltb, ◌==◌, list_key, nat_key, if◌then◌else◌,
}
use tenir.Prelude.Text.{Text, strip, split_words, join}
use tenir.Agreement.{init, commit, caption_words}
use tenir.Streaming.Cut.{Bytes, bytes_to_ms}
use tenir.Streaming.Engine.{
  World, Decoder, Decoded, answered, failed, out_of_fuel, EngineResult, EngineWord, partial_stage,
  retry_stage, Caption, caption_partial, caption_final, run_engine, decode_final,
}

abbrev pub recovery_min_words : ℕ
recovery_min_words = 3

abbrev pub empty_final_retry_pad_ms : ℕ
empty_final_retry_pad_ms = 500

abbrev pub blank_result : EngineResult
blank_result = record { text = []; words = []; language = none; non_speech = false }

abbrev pub is_blank : Text → Bool
is_blank t = t == []

abbrev pub word_count : Text → ℕ
word_count t = length (split_words t)

-- Python's `a or b` on strings that may be missing.
abbrev pub or_text : Option Text → Option Text → Option Text
or_text none b = b
or_text (some []) b = b
or_text (some (c ∷ cs)) b = some (c ∷ cs)

abbrev pub or_lang : Option Text → Option Text → Option Text
or_lang none b = b
or_lang (some l) b = some l

unfoldable pub put_caption : Caption → Decoder → Decoder
put_caption c s = record s { queue = s.queue ++ (c ∷ []) }

unfoldable pub shifted : ℕ → EngineWord → EngineWord
shifted start w = record w { start = start + w.start; end = start + w.end }

-- A partial is shown, and kept for the turn, if it says something.
unfoldable pub show_partial : Text → Option Text → Decoder → Decoder
show_partial text lang s =
    if is_blank text
    then s
    else put_caption (caption_partial text lang) (record s { turn_partial = text })

-- The words of a final on the session's timeline.
unfoldable pub timed : ℕ → List EngineWord → Option (List EngineWord)
timed start [] = none
timed start (w ∷ ws) = some (map (shifted start) (w ∷ ws))

-- The text of a final, and whether it was recovered from the last partial; none is dropped.
unfoldable pub surfaced : EngineResult → Text → Option (Text × Bool)
unfolding strip split_words
surfaced result turn_partial =
    let text = strip result.text in
    let fallback = strip turn_partial in
    if not (is_blank text)
    then some (text, false)
    else if result.non_speech || (is_blank fallback || ltb (word_count fallback) recovery_min_words)
    then none
    else some (fallback, true)

module _ (world : World) (final_words : Bool) (lower : Text → Text)
    (lang_of : Option Text → Option Text) (detect_lang : Text → Option Text)
    (pinned : Option Text) where
  unfoldable pub emit_partial : Bytes → Decoder → Decoder
  emit_partial pcm s =
      let (s1, r) = run_engine world final_words partial_stage pcm 0 false s in
      elim r [
        | none ↦ s1
        | some result ↦
            let lang = lang_of (or_text result.language pinned) in
            elim s1.agreement [
              | none ↦ show_partial (strip result.text) lang s1
              | some agreement ↦
                  let agreed = commit lower agreement (split_words result.text) in
                  show_partial (join (0x20 ∷ []) (caption_words agreed)) lang
                    (record s1 { agreement = some agreed })
            ]
      ]

  unfoldable pub retry_blank_final : Bytes → EngineResult → Decoder → Decoder × EngineResult
  retry_blank_final pcm blank s =
      let (s1, r) =
        run_engine world final_words retry_stage pcm empty_final_retry_pad_ms final_words s in
      (
        s1,
        elim r [
          | none ↦ blank
          | some retry ↦ if ltb (word_count retry.text) recovery_min_words then blank else retry
        ],
      )

  -- The decode of the turn, with the padded retry where it applies.
  unfoldable pub after_decode : Bytes → Bool → Decoder × Decoded → Decoder × EngineResult
  after_decode pcm has_speech (s, answered result) =
      if is_blank (strip result.text) && (has_speech && not result.non_speech)
      then retry_blank_final pcm result s
      else (s, result)
  after_decode pcm has_speech (s, failed) = (s, blank_result)
  after_decode pcm has_speech (s, out_of_fuel) = (s, blank_result)

  unfoldable pub final_result : Bytes → Bool → Decoder → Decoder × EngineResult
  final_result pcm has_speech s = after_decode pcm has_speech (decode_final world final_words pcm s)

  unfoldable pub finalize : Bytes → ℕ → Bool → Decoder → Decoder
  finalize pcm start has_speech s =
      let (s1, result) = final_result pcm has_speech s in
      let s2 = record s1 {
        turn_partial = [];
        agreement = elim s1.agreement [ none ↦ none | some _ ↦ some init ];
      } in
      elim (surfaced result s1.turn_partial) [
        | none ↦ s2
        | some shown ↦
            put_caption
              (caption_final (record {
                text = shown.0;
                lang =
                    or_lang (lang_of (or_text result.language pinned))
                      (lang_of (detect_lang shown.0));
                start_ms = start;
                end_ms = start + bytes_to_ms (length pcm);
                words = if shown.1 then none else timed start result.words;
              }))
              (record s2 { finals_undelivered = s2.finals_undelivered + 1 })
      ]

-- `results`: the next caption goes to the consumer, who has it in hand until it comes back for the
-- one after; a final counts as delivered then.
pub record Served : Type 0 where
  pub decoder : Decoder
  pub hand : Option Caption

unfoldable pub hand_over : Option Caption → Decoder → Served
hand_over (some c) s = record { decoder = s; hand = some c }
hand_over none s = elim s.queue [
  | [] ↦ record { decoder = s; hand = none }
  | c ∷ cs ↦ record { decoder = record s { queue = cs }; hand = some c }
]

unfoldable pub come_back : Option Caption → Decoder → Served
come_back none s = record { decoder = s; hand = none }
come_back (some (caption_partial text lang)) s = record { decoder = s; hand = none }
come_back (some (caption_final f)) s = record {
  decoder = record s { finals_undelivered = s.finals_undelivered - 1 };
  hand = none;
}

-- `close`, which also cancels the worker; the empty partial is its sentinel.
unfoldable pub close : Decoder → Decoder
close s = put_caption (caption_partial [] none) (record s { is_closed = true })

-- The loop of `results` ends.
unfoldable pub has_ended : Decoder → Bool
has_ended s = s.is_closed && (length s.queue == 0)

unfoldable pub finalizing : ℕ → Decoder → Bool
finalizing speech_finals_pending s = ltb 0 speech_finals_pending || ltb 0 s.finals_undelivered
