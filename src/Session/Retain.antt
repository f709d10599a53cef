-- ===== src/Session/Retain.antt =====
-- api/src/api/session.py: the audio of a session and its retention (`on_audio`, `_persist_audio`).
use tenir.Prelude.{
  ℕ, Bool, true, false, Option, none, some, List, [], ◌∷◌, ◌++◌, drop, length, if◌then◌else◌,
}

abbrev pub Bytes : Type 0
Bytes = List ℕ

-- The WAV container of the `wave` module, in both directions.
pub record Wav : Type 0 where
  pub pcm16_to_wav : Bytes → Bytes
  pub wav_to_pcm16 : Bytes → Bytes

-- Where a `_persist_audio` stands: not under way, before `get` with what it took of the buffer,
-- before `put` with the WAV and how many bytes were taken, before `set_audio_key`, before `delete`.
pub data Phase : Type 0 where
  at_rest : Phase
  getting : Bytes → Phase
  putting : Bytes → ℕ → Phase
  linking : Phase
  deleting : Phase

pub record Retainer : Type 0 where
  pub full_audio : Bytes
  pub stored_wav : Option Bytes
  pub phase : Phase
  pub audio_key_pending : Bool
  pub retain_outage : Bool
  pub revoked : Bool

module _ (wav : Wav) where
  -- `on_audio`
  unfoldable pub on_audio : Bytes → Retainer → Retainer
  on_audio pcm s = if s.revoked then s else record s { full_audio = s.full_audio ++ pcm }

  -- The start of `_persist_audio`.
  abbrev pub first_phase : Bytes → Bool → Phase
  first_phase [] true = linking
  first_phase [] false = at_rest
  first_phase (b ∷ bs) pending = getting (b ∷ bs)

  -- `_retain_audio` clears the flag when it is through.
  abbrev pub outage_after : Phase → Bool → Bool
  outage_after at_rest outage = false
  outage_after phase outage = outage

  unfoldable pub persist_audio : Retainer → Retainer
  persist_audio s =
      let phase = first_phase s.full_audio s.audio_key_pending in
      record s { phase = phase; retain_outage = outage_after phase s.retain_outage }

  -- `if existing: pcm = wav_to_pcm16(existing) + pcm`
  abbrev pub joined : Option Bytes → Bytes → Bytes
  joined none pcm = pcm
  joined (some []) pcm = pcm
  joined (some (b ∷ bs)) pcm = wav.wav_to_pcm16 (b ∷ bs) ++ pcm

  abbrev pub after_link : Bool → Bool → Phase
  after_link true created = at_rest
  after_link false created = if created then deleting else at_rest

  -- The call that is awaited returns; `linked` is what `set_audio_key` gives, and `created` whether
  -- the row's `create` is done.
  abbrev pub returns_in : Phase → Bool → Bool → Retainer → Retainer
  returns_in at_rest linked created s = s
  returns_in (getting pcm) linked created s = record s {
    phase = putting (wav.pcm16_to_wav (joined s.stored_wav pcm)) (length pcm);
  }
  returns_in (putting content taken) linked created s = record s {
    stored_wav = some content;
    full_audio = drop taken s.full_audio;
    audio_key_pending = true;
    phase = linking;
  }
  returns_in linking linked created s =
      let phase = after_link linked created in
      record s {
        audio_key_pending = false;
        phase = phase;
        retain_outage = outage_after phase s.retain_outage;
      }
  returns_in deleting linked created s = record s {
    stored_wav = none;
    phase = at_rest;
    retain_outage = false;
  }

  unfoldable pub call_returns : Bool → Bool → Retainer → Retainer
  call_returns linked created s = returns_in s.phase linked created s

  -- A call raises and changed nothing, with whether `_hold` holds the error; `_retain_audio` goes on.
  unfoldable pub call_raises : Bool → Retainer → Retainer
  call_raises held s = record s { phase = at_rest; retain_outage = held }

-- What can happen, in any order.
pub data AudioEvent : Type 0 where
  hears : Bytes → AudioEvent
  retains : AudioEvent
  returns : Bool → Bool → AudioEvent
  raises : Bool → AudioEvent

module _ (wav : Wav) where
  abbrev pub is_at_rest : Phase → Bool
  is_at_rest at_rest = true
  is_at_rest phase = false

  -- One retain at a time: the second one waits for the first.
  unfoldable pub audio_step : AudioEvent → Retainer → Retainer
  audio_step (hears pcm) s = on_audio wav pcm s
  audio_step retains s = if is_at_rest s.phase then persist_audio wav s else s
  audio_step (returns linked created) s = call_returns wav linked created s
  audio_step (raises held) s = call_raises wav held s

  unfoldable pub audio_run : List AudioEvent → Retainer → Retainer
  audio_run [] s = s
  audio_run (e ∷ es) s = audio_run es (audio_step e s)
