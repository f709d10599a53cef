-- ===== src/Tests/Decoding.antt =====
-- Runs of the decodes of api/src/api/stt/streaming.py.
use tenir.Prelude.{
  arith, ◌+◌, ◌≡◌, ◌≢◌, refl, true, false, Option, none, some, List, [], ◌∷◌, inl, if◌then◌else◌,
}
use tenir.Prelude.Text.{Text, codes, strip, split_words, join, lstrip_if, rstrip_if, is_space}
use tenir.Streaming.Cut.{Bytes, bytes_to_ms, ms_to_bytes}
use tenir.Streaming.Engine.{
  World, Decoder, out_of_fuel, EngineResult, caption_final, unpad, measure, run_engine,
  upstream_answers, note_outage, spent, retry_sleep, once_more, probed, decode_from, decode_final,
}
use tenir.Streaming.Finalize.{
  put_caption, show_partial, shifted, timed, surfaced, emit_partial, retry_blank_final,
  after_decode, final_result, finalize, Served, hand_over, come_back, close, finalizing,
}
use tenir.Streaming.Retries.{Waited, slept, decode_final-ends}
use tenir.Streaming.Shown.{
  IsShown, finals, blanks, closes_in, Act, partial_decode, final_decode, gets, comes_back, closes,
  act, acts, acts-IsShown,
}

program : Unit {0}
unfolding bytes_to_ms ms_to_bytes strip split_words join lstrip_if rstrip_if is_space unpad measure
    run_engine upstream_answers note_outage spent retry_sleep once_more probed decode_from
    decode_final put_caption show_partial shifted timed surfaced emit_partial retry_blank_final
    after_decode final_result finalize hand_over come_back finalizing finals blanks closes_in close
    act acts Waited slept
program = tt

abbrev says : Text → EngineResult
says t = record { text = t; words = []; language = none; non_speech = false }

-- An engine that is out, and one that hears nothing in a whole turn but the words in a partial.
abbrev out : World
out = record { transcribe = λ n pcm pad want. none; call_takes = λ n. 15000; sleeps_over = λ n. 3 }

abbrev shy : World
shy = record {
  transcribe =
      λ n pcm pad want. if want then some (says []) else some (says (codes " see you at noon "));
  call_takes = λ n. 100;
  sleeps_over = λ n. 0;
}

abbrev fresh : Decoder
fresh = record {
  clock = 1000;
  calls = 0;
  outage_since = none;
  final_decodes = [];
  final_rate = none;
  last_final_decode = none;
  turn_partial = [];
  agreement = none;
  queue = [];
  finals_undelivered = 0;
  is_closed = false;
}

abbrev clip : Bytes
clip = 1 ∷ 2 ∷ 3 ∷ 4 ∷ []

fresh-Waited : Waited 0 fresh
unfolding program
fresh-Waited = inl (refl, refl)

decode_final-ends_example : (decode_final out true clip fresh).1 ≢ out_of_fuel
decode_final-ends_example = decode_final-ends out true clip fresh fresh-Waited

-- Five calls of fifteen seconds and the probe: then the budget is spent.
out_calls : (decode_final out true clip fresh).0.calls ≡ 6
unfolding program
out_calls = refl

abbrev same_text : Text → Text
same_text t = t

abbrev no_lang : Option Text → Option Text
no_lang l = none

abbrev nothing : Text → Option Text
nothing t = none

abbrev talk : List Act
talk = partial_decode clip ∷ gets ∷ final_decode clip 700 true ∷ closes ∷ comes_back ∷ gets ∷ []

abbrev at_first : Served
at_first = record { decoder = fresh; hand = none }

at_first-IsShown : IsShown (none, 0) at_first.decoder
unfolding program
at_first-IsShown = record { saying = omega arith; undelivered = refl }

acts-IsShown_example :
    IsShown
      ((acts shy true same_text no_lang nothing none talk at_first).hand, 0 + closes_in talk)
      (acts shy true same_text no_lang nothing none talk at_first).decoder
acts-IsShown_example =
    acts-IsShown shy true same_text no_lang nothing none talk 0 at_first at_first-IsShown

recovered :
    (acts shy true same_text no_lang nothing none talk at_first).hand
    ≡ some (
        caption_final (record {
          text = codes "see you at noon";
          lang = none;
          start_ms = 700;
          end_ms = 700;
          words = none;
        }))
unfolding program
recovered = refl
