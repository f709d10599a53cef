-- ===== src/Auth/Renewed.antt =====
-- api/src/api/auth/tokens.py: what the renewal of a token gives.
use tenir.Prelude.{
  ℕ, ◌+◌, ◌*◌, ◌/◌, ◌≤◌, ◌≡◌, refl, sym, ap, ◌∙◌, Bool, true, false, Option, none, some, ltb,
  nat_key, list_key, arith,
}
use tenir.Prelude.Text.{Text, codes}
use tenir.Prelude.Dict.{lookup}
use tenir.Users.Model.{Principal}
use tenir.Auth.Tokens.{
  Claims, Crypto, Checked, malformed_token, bad_signature, malformed_payload, token_expired,
  type_error, valid, refused, issue_token, str_if, expiry_of, principal_of, decode_token,
  with_principal, renew_unless, renew, renew_checked, renew_token_if_due,
}
use tenir.Auth.Issued.{Codec, built_in, expires_if, decode_token-issue_token}

module _ (crypto : Crypto) where
  renew_checked-valid :
      (x : Checked Claims) (secret : Text) (ttl now : ℕ) (fresh : Text)
      → renew_checked crypto x secret ttl now ≡ valid (some fresh)
      → (claims : Claims) × ((x ≡ valid claims) × (renew crypto claims secret ttl now ≡ some fresh))
  renew_checked-valid (valid claims) secret ttl now fresh e = (claims, (refl, cc))
  renew_checked-valid (refused type_error) secret ttl now fresh e = absurd (cc)
  renew_checked-valid (refused malformed_token) secret ttl now fresh e = absurd (cc)
  renew_checked-valid (refused bad_signature) secret ttl now fresh e = absurd (cc)
  renew_checked-valid (refused malformed_payload) secret ttl now fresh e = absurd (cc)
  renew_checked-valid (refused token_expired) secret ttl now fresh e = absurd (cc)

  renew_unless-some :
      (scope : Option Text) (young : Bool) (new fresh : Text)
      → renew_unless crypto scope young new ≡ some fresh
      → (scope ≡ none) × (fresh ≡ new)
  renew_unless-some (some scope) young new fresh e = absurd (cc)
  renew_unless-some none true new fresh e = absurd (cc)
  renew_unless-some none false new fresh e = (refl, cc)

  renew-some :
      (claims : Claims) (secret : Text) (ttl now : ℕ) (fresh : Text)
      → renew crypto claims secret ttl now ≡ some fresh
      → (str_if crypto (lookup (codes "scp") claims) ≡ none)
        × (fresh ≡ issue_token crypto (principal_of crypto claims) secret ttl now)
  unfolding renew
  renew-some claims secret ttl now fresh e = renew_unless-some _ _ _ fresh e

  built_in-principal_of :
      (claims : Claims) (exp : ℕ)
      → str_if crypto (lookup (codes "scp") claims) ≡ none
      → built_in (principal_of crypto claims) exp ≡ principal_of crypto claims
  unfolding principal_of expiry_of
  built_in-principal_of claims exp login = λ i. record (principal_of crypto claims) {
    expires_at =
        (ap (λ s. expires_if s exp) login
            ∙ sym (ap (λ s. expiry_of crypto s (lookup (codes "exp") claims)) login))
          i;
  }

  -- A renewed token stands for the same principal as the one that it replaces, which was valid and no
  -- token of a device.
  pub renew_token_if_due_same :
      (codec : Codec crypto) (token secret fresh : Text) (ttl now later : ℕ)
      → renew_token_if_due crypto token secret ttl now ≡ valid (some fresh)
      → later ≤ (now / 1000 + ttl) * 1000
      → (p : Principal) × ((decode_token crypto token secret now ≡ valid p)
          × ((p.scope ≡ none) × (decode_token crypto fresh secret later ≡ valid p)))
  unfolding renew_token_if_due decode_token principal_of
  renew_token_if_due_same codec token secret fresh ttl now later e h =
      let (claims, (was_valid, renewed)) = renew_checked-valid _ secret ttl now fresh e in
      let (login, issued) = renew-some claims secret ttl now fresh renewed in
      let p = principal_of crypto claims in
      let early : ltb ((now / 1000 + ttl) * 1000) later ≡ false = ground (arith, h) in
      (
        p,
        (
          ap (with_principal crypto) was_valid,
          (
            login,
            ap (λ x. decode_token crypto x secret later) issued
                ∙ decode_token-issue_token crypto codec p secret ttl now later
                ∙ rw (early) (ap valid (built_in-principal_of claims (now / 1000 + ttl) login)),
          ),
        ),
      )
