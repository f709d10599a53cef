-- ===== src/Streaming/Bounds.antt =====
-- api/src/api/stt/streaming.py: where a long turn is cut, and how much audio can stay buffered.
use tenir.Prelude.{
  ℕ, zero, suc, ◌+◌, ◌-◌, ◌*◌, ◌%◌, ◌≤◌, ◌<◌, ◌≡◌, refl, ap, Option, none, some, List, [], ◌∷◌,
  length, drop, arith, ltb, Bool-cases, inl, inr,
}
use tenir.Streaming.Cut.{
  Bytes, ms_to_bytes, energies, smoothed, argmin_from, dip, quietest_cut, cap_cut_smooth, cut_at,
  frames, cap_cut_search_ms, cap_cut_frame_ms,
}

length-energies :
    (energy : Bytes → ℕ) (frame n : ℕ) (pcm : Bytes) → length (energies energy frame n pcm) ≡ n
unfolding energies
length-energies energy frame zero pcm = refl
length-energies energy frame (suc n) pcm = ap suc (length-energies energy frame n _)

length-smoothed : (xs : List ℕ) → length (smoothed xs) ≡ length xs + 1 - cap_cut_smooth
unfolding smoothed
length-smoothed [] = refl
length-smoothed (x ∷ xs) = ground (arith, length-smoothed xs)

-- The index found is the one given or one of the list's.
argmin_from-lt :
    (best at i : ℕ) (xs : List ℕ) → at < i → (argmin_from best at i xs).0 < i + length xs
unfolding argmin_from
argmin_from-lt best at i [] h = omega arith
argmin_from-lt best at i (x ∷ xs) h =
    let better = argmin_from-lt x i (i + 1) xs (omega arith) in
    let same = argmin_from-lt best at (i + 1) xs (omega arith) in ground (arith, better, same)

dip-bounds : (xs : List ℕ) (c : ℕ) → dip xs ≡ some c → (2 ≤ c) × (c < length xs + 2)
unfolding dip
dip-bounds [] c h = absurd (cc)
dip-bounds (x ∷ xs) c h = ground (arith, argmin_from-lt x 0 1 xs (omega arith))

cut_at-bounds :
    (len n : ℕ) (d : Option ℕ)
    → n * 640 ≤ len
    → ((c : ℕ) → d ≡ some c → (2 ≤ c) × (c < n))
    → (cut_at len n d ≤ len)
      × (len ≤ cut_at len n d + n * 640)
      × (0 < len → 0 < cut_at len n d)
      × (len % 2 ≡ 0 → cut_at len n d % 2 ≡ 0)
unfolding cut_at ms_to_bytes
cut_at-bounds len n none fits within = (omega arith, omega arith, (λ h. h), (λ h. h))
cut_at-bounds len n (some c) fits within =
    let (low, high) = within c refl in
    (omega arith, omega arith, (λ h. omega arith), (λ h. omega arith))

frames-fit : (pcm : Bytes) → (frames pcm * 640 ≤ length pcm) × (frames pcm * 640 ≤ 64000)
unfolding frames ms_to_bytes
frames-fit pcm = (omega arith, omega arith)

-- A cut is within the audio, leaves at most the two seconds that are searched, takes something off
-- audio that is not empty, and does not split a sample.
pub quietest_cut-bounds :
    (energy : Bytes → ℕ) (pcm : Bytes)
    → (quietest_cut energy pcm ≤ length pcm)
      × (length pcm ≤ quietest_cut energy pcm + ms_to_bytes cap_cut_search_ms)
      × (0 < length pcm → 0 < quietest_cut energy pcm)
      × (length pcm % 2 ≡ 0 → quietest_cut energy pcm % 2 ≡ 0)
unfolding quietest_cut ms_to_bytes
quietest_cut-bounds energy pcm =
    let frame = ms_to_bytes cap_cut_frame_ms in
    let found : List ℕ =
      energies energy frame (frames pcm) (drop (length pcm - frames pcm * frame) pcm) in
    let (fits, late) = frames-fit pcm in
    elim (Bool-cases (ltb (frames pcm) cap_cut_smooth)) [
      | inl few ↦ rw (few, quietest_cut) (omega arith, omega arith, (λ h. h), (λ h. h))
      | inr many ↦
          let (le, tail, some_off, even) =
            cut_at-bounds (length pcm) (frames pcm) (dip (smoothed found)) fits (λ c e. ground (
              arith,
              dip-bounds (smoothed found) c e,
              length-smoothed found,
              length-energies energy frame (frames pcm)
                  (drop (length pcm - frames pcm * frame) pcm),
            )) in
          rw (many, quietest_cut) (le, omega arith, some_off, even)
    ]

pub quietest_cut-le : (energy : Bytes → ℕ) (pcm : Bytes) → quietest_cut energy pcm ≤ length pcm
quietest_cut-le energy pcm = (quietest_cut-bounds energy pcm).0
