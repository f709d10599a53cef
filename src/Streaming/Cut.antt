-- ===== src/Streaming/Cut.antt =====
-- api/src/api/stt/streaming.py: units, and where a turn at the length cap is cut. Audio is a list of
-- bytes. `energy` stands for numpy's mean of the squared samples of a frame; the smoothing, the
-- minimum and the median are written out, scaled by the counts that the means divide by.
use tenir.Prelude.{
  ℕ, zero, suc, ◌+◌, ◌-◌, ◌*◌, ◌/◌, min, Option, none, some, List, [], ◌∷◌, length, take, drop,
  get_elem?, ltb, leb, if◌then◌else◌,
}
use tenir.Prelude.Sorting.{sort_by}

abbrev pub Bytes : Type 0
Bytes = List ℕ

-- api/src/api/stt/engine.py
abbrev pub sample_rate : ℕ
sample_rate = 16000

abbrev pub bytes_per_sec : ℕ
bytes_per_sec = sample_rate * 2

unfoldable pub ms_to_bytes : ℕ → ℕ
ms_to_bytes ms = ms * bytes_per_sec / 1000

unfoldable pub bytes_to_ms : ℕ → ℕ
bytes_to_ms n = n * 1000 / bytes_per_sec

abbrev pub cap_cut_search_ms : ℕ
cap_cut_search_ms = 2000

abbrev pub cap_cut_frame_ms : ℕ
cap_cut_frame_ms = 20

abbrev pub cap_cut_smooth : ℕ
cap_cut_smooth = 5

-- The energies of the next `n` frames of `frame` bytes.
unfoldable pub energies : (Bytes → ℕ) → ℕ → ℕ → Bytes → List ℕ
energies energy frame zero pcm = []
energies energy frame (suc n) pcm =
    energy (take frame pcm) ∷ energies energy frame n (drop frame pcm)

unfoldable pub sum : List ℕ → ℕ
sum [] = 0
sum (x ∷ xs) = x + sum xs

-- `np.convolve(energy, ones(5), mode="valid")`: the sum of each five neighbours.
unfoldable pub smoothed : List ℕ → List ℕ
unfolding sum
smoothed [] = []
smoothed (x ∷ xs) =
    if leb cap_cut_smooth (length (x ∷ xs))
    then sum (take cap_cut_smooth (x ∷ xs)) ∷ smoothed xs
    else []

-- `np.argmin`: the first place of the least value, with that value.
unfoldable pub argmin_from : ℕ → ℕ → ℕ → List ℕ → ℕ × ℕ
argmin_from best at i [] = (at, best)
argmin_from best at i (x ∷ xs) =
    argmin_from (if ltb x best then x else best) (if ltb x best then i else at) (i + 1) xs

-- Twice the median.
unfoldable pub twice_median : List ℕ → ℕ
unfolding sort_by
twice_median xs =
    let sorted : List ℕ = sort_by ltb xs in
    let n : ℕ = length sorted in
    let upper : ℕ = elim (get_elem? sorted (n / 2)) [ none ↦ 0 | some x ↦ x ] in
    let lower : ℕ = elim (get_elem? sorted ((n - 1) / 2)) [ none ↦ 0 | some x ↦ x ] in lower + upper

-- The index of the frame to cut at, unless the least stretch is at least half as loud as the median.
unfoldable pub dip : List ℕ → Option ℕ
unfolding argmin_from twice_median
dip [] = none
dip (x ∷ xs) =
    let (at, least) = argmin_from x 0 1 xs in
    if leb (twice_median (x ∷ xs)) (4 * least) then none else some (at + cap_cut_smooth / 2)

-- The cut in audio of `len` bytes whose last `n` frames were searched.
unfoldable pub cut_at : ℕ → ℕ → Option ℕ → ℕ
unfolding ms_to_bytes
cut_at len n none = len
cut_at len n (some centre) =
    let frame = ms_to_bytes cap_cut_frame_ms in len - n * frame + centre * frame

unfoldable pub frames : Bytes → ℕ
unfolding ms_to_bytes
frames pcm = min (length pcm) (ms_to_bytes cap_cut_search_ms) / ms_to_bytes cap_cut_frame_ms

unfoldable pub quietest_cut : (Bytes → ℕ) → Bytes → ℕ
quietest_cut energy pcm =
    let frame = ms_to_bytes cap_cut_frame_ms in
    let n = frames pcm in
    let base = length pcm - n * frame in
    if ltb n cap_cut_smooth
    then length pcm
    else cut_at (length pcm) n (dip (smoothed (energies energy frame n (drop base pcm))))
