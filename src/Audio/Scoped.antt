-- ===== src/Audio/Scoped.antt =====
-- api/src/api/persistence/audio.py: a key stays in its household's directory.
use tenir.Prelude.{
  list_beq, ◌≡◌, ◌∙◌, sym, refl, ap, false, ◌||◌, some, List, [], ◌∷◌, ◌++◌, nat_key, list_key,
  arith, Bool-cases, inl, inr,
}
use tenir.Prelude.Text.{Text}
use tenir.Prelude.Split.{split_on, has, has-append, split_on-append, join_on, join_on-split_on}
use tenir.Audio.Stores.{slash, is_special, is_unsafe, wav, audio_key, two_parts, path_of}

nonempty-wav : (c : Text) → list_beq (c ++ wav) [] ≡ false
nonempty-wav [] = refl
nonempty-wav (x ∷ c) = refl

-- An id with its suffix is no special name unless the id has a forbidden character.
is_special-wav : (c : Text) → is_special c ≡ false → is_special (c ++ wav) ≡ false
unfolding is_special
is_special-wav [] h = refl
is_special-wav (x ∷ []) h = ground (arith, h)
is_special-wav (x ∷ (y ∷ c)) h =
    ground (arith, h, has-append 92 c wav, has-append 0 c wav, nonempty-wav c)

-- The path of a key is the household's directory and the file of the conversation in it.
pub path_of-audio_key :
    (household conversation_id key : Text)
    → audio_key household conversation_id ≡ some key
    → path_of key ≡ some (household ∷ ((conversation_id ++ wav) ∷ []))
unfolding audio_key path_of is_unsafe
path_of-audio_key h c key e = elim (Bool-cases (is_unsafe h || is_unsafe c)) [
  | inl bad ↦ absurd (grind (arith, e, bad))
  | inr safe ↦
      let key_is : key ≡ h ++ (slash ∷ (c ++ wav)) = grind (arith, e, safe) in
      let h_flat : has slash h ≡ false = ground (arith, safe) in
      let c_flat : has slash (c ++ wav) ≡ false = ground (arith, safe, has-append slash c wav) in
      let h_plain : is_special h ≡ false = ground (arith, safe) in
      let c_plain : is_special (c ++ wav) ≡ false = is_special-wav c (ground (arith, safe)) in
      rw (key_is, split_on-append slash h (c ++ wav) h_flat c_flat, h_plain, c_plain) refl
]

two_parts-some : (parts path : List Text) → two_parts parts ≡ some path → parts ≡ path
two_parts-some [] path e = absurd (cc)
two_parts-some (a ∷ []) path e = absurd (cc)
two_parts-some (a ∷ (b ∷ (c ∷ cs))) path e = absurd (cc)
two_parts-some (a ∷ (b ∷ [])) path e = elim (Bool-cases (is_special a || is_special b)) [
  | inl bad ↦ absurd (grind (arith, e, bad))
  | inr fine ↦ grind (arith, e, fine)
]

-- Two keys with the same path are the same key.
pub path_of_injective :
    (j k : Text) (path : List Text) → path_of j ≡ some path → path_of k ≡ some path → j ≡ k
unfolding path_of
path_of_injective j k path e f =
    sym (join_on-split_on slash j)
    ∙ ap (join_on slash)
        (two_parts-some (split_on slash j) path e ∙ sym (two_parts-some (split_on slash k) path f))
    ∙ join_on-split_on slash k
