-- ===== src/Auth/Issued.antt =====
-- api/src/api/auth/tokens.py: what a token that was issued decodes to.
use tenir.Prelude.{
  ℕ, ◌+◌, ◌*◌, ◌/◌, ◌≡◌, refl, ap, ◌∙◌, true, false, Option, none, some, [], ◌++◌, ltb, nat_key,
  list_key, if◌then◌else◌, beq_refl, inl, inr, Bool-cases,
}
use tenir.Prelude.Text.{Text, codes}
use tenir.Prelude.Split.{has, split_on-append}
use tenir.Prelude.Dict.{lookup}
use tenir.Users.Model.{Role, member, admin, Principal}
use tenir.Auth.Tokens.{
  text, number, Claims, Crypto, valid, refused, dot, is_ascii, compare_digest, claim_if, claims_of,
  role_name, issue_token, is_expired, unexpired, token_expired, check_payload, check_parts,
  decode_claims, str_of, str_if, role_of, expiry_of, principal_of, decode_token, with_principal,
}

-- What the code relies on of base64, JSON and the HMAC: a payload decodes to what was encoded, and
-- neither a payload nor a signature has a dot or a character beyond ASCII.
pub record Codec (crypto : Crypto) : Type 0 where
  pub decode_encode : (c : Claims) → crypto.decode (crypto.encode c) ≡ some c
  pub payload_no_dot : (c : Claims) → has dot (crypto.encode c) ≡ false
  pub mac_no_dot : (p secret : Text) → has dot (crypto.mac p secret) ≡ false
  pub mac_ascii : (p secret : Text) → is_ascii (crypto.mac p secret) ≡ true

abbrev pub expires_if : Option Text → ℕ → Option ℕ
expires_if none exp = none
expires_if (some scope) exp = some exp

-- What the built-in login knows of a principal: a token has no claims of the other login.
abbrev pub built_in : Principal → ℕ → Principal
built_in p exp = record {
  user_id = p.user_id;
  household = p.household;
  role = p.role;
  username = p.username;
  sub = none;
  email = none;
  email_verified = false;
  groups = [];
  scope = p.scope;
  token_id = p.token_id;
  expires_at = expires_if p.scope exp;
}

module _ (crypto : Crypto) (codec : Codec crypto) where
  role_of-role_name : (r : Role) → role_of crypto (some (text (role_name r))) ≡ r
  unfolding role_of
  role_of-role_name member = refl
  role_of-role_name admin = refl

  scope_read :
      (s j : Option Text)
      → str_if crypto (lookup (codes "scp") (claim_if (codes "scp") s ++ claim_if (codes "jti") j))
        ≡ s
  unfolding str_if str_of lookup
  scope_read none none = refl
  scope_read none (some j) = refl
  scope_read (some s) j = refl

  token_id_read :
      (s j : Option Text)
      → str_if crypto (lookup (codes "jti") (claim_if (codes "scp") s ++ claim_if (codes "jti") j))
        ≡ j
  unfolding str_if str_of lookup
  token_id_read none none = refl
  token_id_read none (some j) = refl
  token_id_read (some s) none = refl
  token_id_read (some s) (some j) = refl

  expiry_read :
      (s : Option Text) (exp : ℕ) → expiry_of crypto s (some (number exp)) ≡ expires_if s exp
  unfolding expiry_of
  expiry_read none exp = refl
  expiry_read (some s) exp = refl

  principal_of-claims_of :
      (p : Principal) (iat ttl : ℕ)
      → principal_of crypto (claims_of p iat ttl) ≡ built_in p (iat + ttl)
  unfolding principal_of claims_of lookup str_of str_if role_of expiry_of
  principal_of-claims_of p iat ttl =
      let s = scope_read p.scope p.token_id in
      λ i. record {
        user_id = p.user_id;
        household = p.household;
        role = role_of-role_name p.role i;
        username = p.username;
        sub = none;
        email = none;
        email_verified = false;
        groups = [];
        scope = s i;
        token_id = token_id_read p.scope p.token_id i;
        expires_at =
            (ap (λ x. expiry_of crypto x (some (number (iat + ttl)))) s
                ∙ expiry_read p.scope (iat + ttl))
              i;
      }

  claims_of-is_expired :
      (p : Principal) (iat ttl later : ℕ)
      → is_expired crypto (lookup (codes "exp") (claims_of p iat ttl)) later
        ≡ some (ltb ((iat + ttl) * 1000) later)
  unfolding is_expired claims_of lookup
  claims_of-is_expired p iat ttl later = refl

  decode_claims-issue_token :
      (p : Principal) (secret : Text) (ttl now later : ℕ)
      → decode_claims crypto (issue_token crypto p secret ttl now) secret later
        ≡ unexpired crypto
            (claims_of p (now / 1000) ttl)
            (some (ltb ((now / 1000 + ttl) * 1000) later))
  unfolding decode_claims issue_token check_parts compare_digest check_payload
  decode_claims-issue_token p secret ttl now later =
      let claims = claims_of p (now / 1000) ttl in
      let payload = crypto.encode claims in
      rw
        (
          split_on-append dot payload (crypto.mac payload secret) (codec.payload_no_dot _)
              (codec.mac_no_dot _ _),
          codec.mac_ascii payload secret,
          beq_refl (crypto.mac payload secret),
          codec.decode_encode claims,
        )
        (ap (unexpired crypto claims) (claims_of-is_expired p (now / 1000) ttl later))

  -- A token decodes to the principal that it was issued for, until it expires, and from then on to a
  -- refusal.
  pub decode_token-issue_token :
      (p : Principal) (secret : Text) (ttl now later : ℕ)
      → decode_token crypto (issue_token crypto p secret ttl now) secret later ≡ (
          if ltb ((now / 1000 + ttl) * 1000) later
          then refused token_expired
          else valid (built_in p (now / 1000 + ttl)))
  unfolding decode_token
  decode_token-issue_token p secret ttl now later =
      ap (with_principal crypto) (decode_claims-issue_token p secret ttl now later)
      ∙ (elim (Bool-cases (ltb ((now / 1000 + ttl) * 1000) later)) [
        | inl late ↦ rw (late) refl
        | inr early ↦ rw (early) (ap valid (principal_of-claims_of p (now / 1000) ttl))
      ])
