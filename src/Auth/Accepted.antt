-- ===== src/Auth/Accepted.antt =====
-- api/src/api/auth/tokens.py: what is true of a token that is accepted, and of its renewal.
use tenir.Prelude.{
  ℕ, ◌≡◌, refl, ap, subst, Bool, true, false, Option, none, some, List, [], ◌∷◌, ◌++◌, nat_key,
  list_key, arith, list_beq_iff,
}
use tenir.Prelude.Text.{Text, codes}
use tenir.Prelude.Split.{split_on, join_on, join_on-split_on}
use tenir.Prelude.Dict.{lookup}
use tenir.Auth.Tokens.{
  Claims, Crypto, Checked, valid, dot, compare_digest, is_expired, unexpired, check_payload, signed,
  check_parts, decode_claims,
}

compare_digest-same : (a b : Text) → compare_digest a b ≡ some true → a ≡ b
unfolding compare_digest
compare_digest-same a b h = ground (arith, h, list_beq_iff a b)

module _ (crypto : Crypto) where
  -- A token made of a payload, that decodes to claims whose time is not over, and its signature.
  pub record Genuine (token secret : Text) (now : ℕ) (claims : Claims) : Type 0 where
    pub payload : Text
    pub is_signed : token ≡ payload ++ (dot ∷ crypto.mac payload secret)
    pub decodes : crypto.decode payload ≡ some claims
    pub in_time : is_expired crypto (lookup (codes "exp") claims) now ≡ some false

  unexpired-valid :
      (c claims : Claims) (o : Option Bool)
      → unexpired crypto c o ≡ valid claims
      → (c ≡ claims) × (o ≡ some false)
  unexpired-valid c claims none e = absurd (cc)
  unexpired-valid c claims (some true) e = absurd (cc)
  unexpired-valid c claims (some false) e = (cc, refl)

  check_payload-valid :
      (o : Option Claims) (now : ℕ) (claims : Claims)
      → check_payload crypto o now ≡ valid claims
      → (o ≡ some claims) × (is_expired crypto (lookup (codes "exp") claims) now ≡ some false)
  unfolding check_payload
  check_payload-valid none now claims e = absurd (cc)
  check_payload-valid (some c) now claims e =
      let (same, fine) = unexpired-valid c claims _ e in
      (
        ap some same,
        subst (λ x. is_expired crypto (lookup (codes "exp") x) now ≡ some false) same fine,
      )

  signed-valid :
      (o : Option Bool) (rest : Checked Claims) (claims : Claims)
      → signed crypto o rest ≡ valid claims
      → (o ≡ some true) × (rest ≡ valid claims)
  signed-valid none rest claims e = absurd (cc)
  signed-valid (some false) rest claims e = absurd (cc)
  signed-valid (some true) rest claims e = (refl, e)

  check_parts-Genuine :
      (parts : List Text) (secret : Text) (now : ℕ) (claims : Claims)
      → check_parts crypto parts secret now ≡ valid claims
      → Genuine (join_on dot parts) secret now claims
  unfolding check_parts check_payload compare_digest
  check_parts-Genuine [] secret now claims e = absurd (cc)
  check_parts-Genuine (p ∷ []) secret now claims e = absurd (cc)
  check_parts-Genuine (p ∷ (s ∷ (r ∷ rs))) secret now claims e = absurd (cc)
  check_parts-Genuine (p ∷ (s ∷ [])) secret now claims e =
      let (equal, rest) = signed-valid _ _ claims e in
      let (decodes, fine) = check_payload-valid _ now claims rest in
      record {
        payload = p;
        is_signed = ap (λ x. p ++ (dot ∷ x)) (compare_digest-same s (crypto.mac p secret) equal);
        decodes = decodes;
        in_time = fine;
      }

  -- A token is accepted only if it is a payload with its signature under the secret, and its time is
  -- not over.
  pub decode_claims-Genuine :
      (token secret : Text) (now : ℕ) (claims : Claims)
      → decode_claims crypto token secret now ≡ valid claims
      → Genuine token secret now claims
  unfolding decode_claims
  decode_claims-Genuine token secret now claims e =
      subst (λ t. Genuine t secret now claims) (join_on-split_on dot token)
        (check_parts-Genuine (split_on dot token) secret now claims e)
