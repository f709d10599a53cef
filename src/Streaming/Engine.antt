-- ===== src/Streaming/Engine.antt =====
-- api/src/api/stt/streaming.py and engine.py: a call of the engine, and the final decode that is
-- tried again while the engine is out. The engine is a parameter that answers each call as it likes,
-- or raises; so are the time a call takes and what a sleep takes beyond its delay. Times are in
-- milliseconds.
use tenir.Prelude.{
  ℕ, zero, suc, ◌+◌, ◌-◌, ◌*◌, min, Bool, true, false, Option, none, some, List, [], ◌∷◌, map,
  length, ltb, nat_beq, if◌then◌else◌,
}
use tenir.Prelude.Text.{Text}
use tenir.Agreement.{LocalAgreement}
use tenir.Streaming.Cut.{Bytes, bytes_to_ms, bytes_per_sec}

-- A word with its times in the audio and its probability in thousandths, if the engine gives one.
pub record EngineWord : Type 0 where
  pub word : Text
  pub start : ℕ
  pub end : ℕ
  pub probability : Option ℕ

pub record EngineResult : Type 0 where
  pub text : Text
  pub words : List EngineWord
  pub language : Option Text
  pub non_speech : Bool

pub data Stage : Type 0 where
  partial_stage : Stage
  final_stage : Stage
  retry_stage : Stage
  probe_stage : Stage

pub record World : Type 0 where
  pub transcribe : ℕ → Bytes → ℕ → Bool → Option EngineResult
  pub call_takes : ℕ → ℕ
  pub sleeps_over : ℕ → ℕ

pub record CaptionFinal : Type 0 where
  pub text : Text
  pub lang : Option Text
  pub start_ms : ℕ
  pub end_ms : ℕ
  pub words : Option (List EngineWord)

pub data Caption : Type 0 where
  caption_partial : Text → Option Text → Caption
  caption_final : CaptionFinal → Caption

-- The fields that the decodes use. `final_rate` is the elapsed time and the audio of the last final.
pub record Decoder : Type 0 where
  pub clock : ℕ
  pub calls : ℕ
  pub outage_since : Option ℕ
  pub final_decodes : List (ℕ × ℕ)
  pub final_rate : Option (ℕ × ℕ)
  pub last_final_decode : Option (ℕ × ℕ)
  pub turn_partial : Text
  pub agreement : Option LocalAgreement
  pub queue : List Caption
  pub finals_undelivered : ℕ
  pub is_closed : Bool

-- The times of a word back on the timeline of the turn without its padding.
unfoldable pub unpad : ℕ → ℕ → EngineWord → EngineWord
unpad dur pad w = record w { start = min dur (w.start - pad); end = min dur (w.end - pad) }

-- The measure of a decode, both parts in 32nds of a millisecond: a byte of audio is one.
unfoldable pub measure : Stage → ℕ → Bytes → Option (ℕ × ℕ)
measure final_stage took (b ∷ bs) = some (took * 32, length (b ∷ bs))
measure _ took pcm = none

abbrev pub or_keep : Option (ℕ × ℕ) → Option (ℕ × ℕ) → Option (ℕ × ℕ)
or_keep none old = old
or_keep (some m) old = some m

-- Milliseconds of `_FINAL_RETRY_BUDGET_S` and `_FINAL_RETRY_BACKOFF_S`.
abbrev pub final_retry_budget : ℕ
final_retry_budget = 60000

abbrev pub backoff : ℕ → ℕ
backoff zero = 500
backoff (suc zero) = 1000
backoff (suc (suc zero)) = 2000
backoff (suc (suc (suc zero))) = 4000
backoff (suc (suc (suc (suc n)))) = 8000

unfoldable pub probe_bytes : ℕ → Bytes
probe_bytes zero = []
probe_bytes (suc n) = 0 ∷ probe_bytes n

pub data Decoded : Type 0 where
  answered : EngineResult → Decoded
  failed : Decoded
  out_of_fuel : Decoded

-- `now = time.perf_counter()` and the start of an outage.
unfoldable pub note_outage : Decoder → Decoder
note_outage s = elim s.outage_since [
  | none ↦ record s { outage_since = some s.clock; final_decodes = [] }
  | some since ↦ s
]

unfoldable pub spent : ℕ → Decoder → Bool
spent delay s = elim s.outage_since [
  | none ↦ false
  | some since ↦ ltb (since + final_retry_budget) (s.clock + delay)
]

-- Whether the upstream is probed: at the first failure outside an outage.
abbrev pub probes : ℕ → Decoder → Bool
probes attempt s = elim s.outage_since [ none ↦ nat_beq attempt 0 | some since ↦ false ]

-- The sleeps before an eleventh retry would take longer than the budget.
abbrev pub decode_fuel : ℕ
decode_fuel = 11

module _ (world : World) (final_words : Bool) where
  unfoldable pub run_engine : Stage → Bytes → ℕ → Bool → Decoder → Decoder × Option EngineResult
  run_engine stage pcm pad_ms want_words s =
      let took = world.call_takes s.calls in
      let called = record s { clock = s.clock + took; calls = s.calls + 1 } in
      elim (world.transcribe s.calls pcm pad_ms want_words) [
        | none ↦ (called, none)
        | some r ↦ (
          record called {
            outage_since = none;
            final_rate = or_keep (measure stage took pcm) s.final_rate;
            last_final_decode = or_keep (measure stage took pcm) s.last_final_decode;
          },
          some (
              if nat_beq pad_ms 0
              then r
              else record r { words = map (unpad (bytes_to_ms (length pcm)) pad_ms) r.words }),
        )
      ]

  unfoldable pub upstream_answers : Decoder → Decoder × Bool
  upstream_answers s =
      let (s', r) = run_engine probe_stage (probe_bytes bytes_per_sec) 0 false s in
      (s', elim r [ none ↦ false | some _ ↦ true ])

  unfoldable pub retry_sleep : ℕ → Decoder → Decoder
  retry_sleep delay s = record s { clock = s.clock + delay + world.sleeps_over s.calls }

  -- The answer to a probe: the one retry at once.
  unfoldable pub once_more : Bytes → Decoder → Decoder × Decoded
  once_more pcm s =
      let (s', r) = run_engine final_stage pcm 0 final_words s in
      (s', elim r [ none ↦ failed | some result ↦ answered result ])

  -- The probe after a failed decode, where there is one.
  unfoldable pub probed : ℕ → Bytes → Decoder → Decoder × Bool
  probed attempt pcm s =
      let s1 = (run_engine final_stage pcm 0 final_words s).0 in
      if probes attempt s1 then upstream_answers s1 else (s1, false)

  unfoldable pub decode_from : ℕ → ℕ → Bytes → Decoder → Decoder × Decoded
  decode_from zero attempt pcm s = (s, out_of_fuel)
  decode_from (suc fuel) attempt pcm s =
      let (s1, r) = run_engine final_stage pcm 0 final_words s in
      let (s2, up) = probed attempt pcm s in
      let s3 = note_outage s2 in
      let again = decode_from fuel (suc attempt) pcm (retry_sleep (backoff attempt) s3) in
      elim r [
        | some result ↦ (s1, answered result)
        | none ↦
            if up
            then once_more pcm s2
            else if spent (backoff attempt) s3
            then (s3, failed)
            else again
      ]

  unfoldable pub decode_final : Bytes → Decoder → Decoder × Decoded
  decode_final pcm s = decode_from decode_fuel 0 pcm s
