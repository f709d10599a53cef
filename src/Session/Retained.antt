-- ===== src/Session/Retained.antt =====
-- api/src/api/session.py: what the retains of a session store of its audio.
use tenir.Prelude.{
  ℕ, All, ◌≡◌, ◌≢◌, inl, inr, refl, sym, ap, ◌∙◌, subst, Bool, true, false, Option, none, some,
  List, [], ◌∷◌, ◌++◌, ◌-◌, ◌%◌, take, drop, length, length-append, append_assoc, append-nil,
  Bool-cases, arith,
}
use tenir.Session.Retain.{
  Bytes, Wav, Phase, at_rest, getting, putting, linking, deleting, Retainer, on_audio, first_phase,
  persist_audio, joined, returns_in, call_returns, call_raises, AudioEvent, hears, retains, returns,
  raises, is_at_rest, audio_step, audio_run,
}

-- The whole samples of two bytes each.
abbrev pub whole_samples_of : Bytes → Bytes
whole_samples_of pcm = take (length pcm - length pcm % 2) pcm

-- What the code relies on of the `wave` module: it reads back the whole samples, so the last byte of
-- an odd number is lost, and a file begins with a header.
pub record IsWav (wav : Wav) : Type 0 where
  pub read_back : (pcm : Bytes) → wav.wav_to_pcm16 (wav.pcm16_to_wav pcm) ≡ whole_samples_of pcm
  pub has_header : (pcm : Bytes) → wav.pcm16_to_wav pcm ≢ []

abbrev pub IsEven : Bytes → Type 0
IsEven pcm = length pcm % 2 ≡ 0

IsEven-whole_samples_of : (pcm : Bytes) → IsEven pcm → whole_samples_of pcm ≡ pcm
IsEven-whole_samples_of pcm even =
    ap (λ n. take n pcm) {y = length pcm} (omega (arith, even)) ∙ take_all pcm
  where
    take_all : (xs : Bytes) → take (length xs) xs ≡ xs
    take_all [] = refl
    take_all (x ∷ xs) = ap (◌∷◌ x) (take_all xs)

IsEven-append : (xs ys : Bytes) → IsEven xs → IsEven ys → IsEven (xs ++ ys)
IsEven-append xs ys h k = omega (arith, h, k, length-append xs ys)

IsEven-rest : (xs ys : Bytes) → IsEven xs → IsEven (xs ++ ys) → IsEven ys
IsEven-rest xs ys h k = omega (arith, h, k, length-append xs ys)

drop_taken : (xs ys : Bytes) → drop (length xs) (xs ++ ys) ≡ ys
drop_taken [] ys = refl
drop_taken (x ∷ xs) ys = drop_taken xs ys

module _ (wav : Wav) where
  -- The sound that is stored.
  abbrev pub sound : Option Bytes → Bytes
  sound none = []
  sound (some []) = []
  sound (some (b ∷ bs)) = wav.wav_to_pcm16 (b ∷ bs)

  joined-sound : (o : Option Bytes) (pcm : Bytes) → joined wav o pcm ≡ sound o ++ pcm
  joined-sound none pcm = refl
  joined-sound (some []) pcm = refl
  joined-sound (some (b ∷ bs)) pcm = refl

  sound-some : (w : Bytes) → w ≢ [] → sound (some w) ≡ wav.wav_to_pcm16 w
  sound-some [] h = absurd (h refl)
  sound-some (b ∷ bs) h = refl

  -- What a retain under way took is still at the front of the buffer.
  abbrev Taken : Phase → Bytes → Option Bytes → Type 0
  Taken at_rest full o = Unit {0}
  Taken (getting pcm) full o = (more : Bytes) × ((full ≡ pcm ++ more) × IsEven pcm)
  Taken (putting content n) full o =
      (pcm : Bytes) × (more : Bytes) × ((full ≡ pcm ++ more)
        × (IsEven pcm × ((n ≡ length pcm) × (content ≡ wav.pcm16_to_wav (sound o ++ pcm)))))
  Taken linking full o = Unit {0}
  Taken deleting full o = false ≡ true

  -- All that was heard is stored or in the buffer, in order and in whole samples.
  pub record IsWhole (heard : Bytes) (s : Retainer) : Type 0 where
    pub live : s.revoked ≡ false
    pub whole : sound s.stored_wav ++ s.full_audio ≡ heard
    pub even_stored : IsEven (sound s.stored_wav)
    pub even_buffer : IsEven s.full_audio
    pub taken : Taken s.phase s.full_audio s.stored_wav

  Taken-more :
      (phase : Phase) (full pcm : Bytes) (o : Option Bytes)
      → Taken phase full o
      → Taken phase (full ++ pcm) o
  Taken-more at_rest full pcm o t = tt
  Taken-more (getting p) full pcm o (more, e) =
      (more ++ pcm, (ap (λ x. x ++ pcm) e.0 ∙ append_assoc p more pcm, e.1))
  Taken-more (putting c n) full pcm o (p, more, h) =
      (p, more ++ pcm, (ap (λ x. x ++ pcm) h.0 ∙ append_assoc p more pcm, h.1))
  Taken-more linking full pcm o t = tt
  Taken-more deleting full pcm o t = t

  -- The audio of the events.
  abbrev pub heard_of : AudioEvent → Bytes
  heard_of (hears pcm) = pcm
  heard_of e = []

  unfoldable pub heard_in : List AudioEvent → Bytes
  heard_in [] = []
  heard_in (e ∷ es) = heard_of e ++ heard_in es

  -- A frame is of whole samples, and the recording is not deleted meanwhile.
  abbrev pub IsKept : AudioEvent → Type 0
  IsKept (hears pcm) = IsEven pcm
  IsKept (returns linked created) = linked ≡ true
  IsKept e = Unit {0}

  first_phase-Taken :
      (full : Bytes) (pending : Bool) (o : Option Bytes)
      → IsEven full
      → Taken (first_phase wav full pending) full o
  first_phase-Taken [] true o even = tt
  first_phase-Taken [] false o even = tt
  first_phase-Taken (b ∷ bs) pending o even = ([], (sym (append-nil (b ∷ bs)), even))

  module _ (law : IsWav wav) where
    -- What a put stores, when the sound so far and what it adds are of whole samples.
    sound-put :
        (pcm content : Bytes) (o : Option Bytes)
        → IsEven (sound o)
        → IsEven pcm
        → content ≡ wav.pcm16_to_wav (sound o ++ pcm)
        → sound (some content) ≡ sound o ++ pcm
    sound-put pcm content o even_stored even_pcm c =
        ap (λ x. sound (some x)) c
        ∙ sound-some _ (law.has_header (sound o ++ pcm))
        ∙ law.read_back (sound o ++ pcm)
        ∙ IsEven-whole_samples_of (sound o ++ pcm)
            (IsEven-append (sound o) pcm even_stored even_pcm)

    left-put :
        (pcm more full : Bytes) (n : ℕ) → full ≡ pcm ++ more → n ≡ length pcm → drop n full ≡ more
    left-put pcm more full n e l =
        ap (λ x. drop n x) e ∙ ap (λ k. drop k (pcm ++ more)) l ∙ drop_taken pcm more

    stored-whole :
        (pcm more full content heard : Bytes) (n : ℕ) (o : Option Bytes)
        → full ≡ pcm ++ more
        → drop n full ≡ more
        → sound (some content) ≡ sound o ++ pcm
        → sound o ++ full ≡ heard
        → sound (some content) ++ drop n full ≡ heard
    stored-whole pcm more full content heard n o e l c w =
        ap (λ x. x ++ drop n full) c
        ∙ ap (λ x. (sound o ++ pcm) ++ x) l
        ∙ append_assoc (sound o) pcm more
        ∙ ap (λ x. sound o ++ x) (sym e)
        ∙ w

    returns_in-IsWhole :
        (phase : Phase) (created : Bool) (heard : Bytes) (s : Retainer)
        → IsWhole heard s
        → Taken phase s.full_audio s.stored_wav
        → s.phase ≡ phase
        → IsWhole heard (returns_in wav phase true created s)
    returns_in-IsWhole at_rest created heard s h t e = h
    returns_in-IsWhole (getting pcm) created heard s h (more, f) e = record {
      live = h.live;
      whole = h.whole;
      even_stored = h.even_stored;
      even_buffer = h.even_buffer;
      taken =
          (pcm, more, (f.0, (f.1, (refl, ap wav.pcm16_to_wav (joined-sound s.stored_wav pcm)))));
    }
    returns_in-IsWhole (putting content n) created heard s h (pcm, more, f) e =
        let put = sound-put pcm content s.stored_wav h.even_stored f.1.0 f.1.1.1 in
        let left = left-put pcm more s.full_audio n f.0 f.1.1.0 in
        record {
          live = h.live;
          whole =
              stored-whole pcm more s.full_audio content heard n s.stored_wav f.0 left put h.whole;
          even_stored =
              subst IsEven (sym put) (IsEven-append (sound s.stored_wav) pcm h.even_stored f.1.0);
          even_buffer =
              subst IsEven (sym left) (IsEven-rest pcm more f.1.0 (subst IsEven f.0 h.even_buffer));
          taken = tt;
        }
    returns_in-IsWhole linking created heard s h t e = record {
      live = h.live;
      whole = h.whole;
      even_stored = h.even_stored;
      even_buffer = h.even_buffer;
      taken = tt;
    }
    returns_in-IsWhole deleting created heard s h t e = absurd (cc)

    audio_step-IsWhole :
        (e : AudioEvent) (heard : Bytes) (s : Retainer)
        → IsKept e
        → IsWhole heard s
        → IsWhole (heard ++ heard_of e) (audio_step wav e s)
    unfolding audio_step on_audio persist_audio call_returns call_raises
    audio_step-IsWhole (hears pcm) heard s linked h = rw (h.live) (record {
      live = refl;
      whole = sym (append_assoc (sound s.stored_wav) s.full_audio pcm) ∙ ap (λ x. x ++ pcm) h.whole;
      even_stored = h.even_stored;
      even_buffer = IsEven-append s.full_audio pcm h.even_buffer linked;
      taken = Taken-more s.phase s.full_audio pcm s.stored_wav h.taken;
    })
    audio_step-IsWhole retains heard s linked h = elim (Bool-cases (is_at_rest wav s.phase)) [
      | inl rest ↦
          rw (rest, append-nil heard)
            (record {
              live = h.live;
              whole = h.whole;
              even_stored = h.even_stored;
              even_buffer = h.even_buffer;
              taken = first_phase-Taken s.full_audio s.audio_key_pending s.stored_wav h.even_buffer;
            })
      | inr busy ↦ rw (busy, append-nil heard) h
    ]
    audio_step-IsWhole (returns true created) heard s linked h =
        rw (append-nil heard) (returns_in-IsWhole s.phase created heard s h h.taken refl)
    audio_step-IsWhole (returns false created) heard s linked h = absurd (cc)
    audio_step-IsWhole (raises held) heard s linked h = rw (append-nil heard) (record {
      live = h.live;
      whole = h.whole;
      even_stored = h.even_stored;
      even_buffer = h.even_buffer;
      taken = tt;
    })

    -- Whatever calls fail in between, everything that was heard is stored or in the buffer, once and
    -- in order, and both are of whole samples, as long as the recording is neither revoked nor
    -- deleted and each frame is of whole samples.
    pub audio_run-IsWhole :
        (es : List AudioEvent) (heard : Bytes) (s : Retainer)
        → All IsKept es
        → IsWhole heard s
        → IsWhole (heard ++ heard_in es) (audio_run wav es s)
    unfolding audio_run heard_in
    audio_run-IsWhole [] heard s linked h = rw (append-nil heard) h
    audio_run-IsWhole (e ∷ es) heard s linked h =
        subst (λ x. IsWhole x (audio_run wav (e ∷ es) s))
          (append_assoc heard (heard_of e) (heard_in es))
          (audio_run-IsWhole es (heard ++ heard_of e) (audio_step wav e s) linked.1
            (audio_step-IsWhole e heard s linked.0 h))
