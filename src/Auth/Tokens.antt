-- ===== src/Auth/Tokens.antt =====
-- api/src/api/auth/tokens.py: tokens are issued, checked and renewed.
use tenir.Prelude.{
  ℕ, ◌+◌, ◌-◌, ◌*◌, ◌/◌, Bool, true, false, ◌&&◌, not, Option, none, some, List, [], ◌∷◌, ◌++◌, any,
  ltb, leb, ◌==◌, nat_key, list_key, if◌then◌else◌,
}
use tenir.Prelude.Text.{Text, codes}
use tenir.Prelude.Split.{split_on}
use tenir.Prelude.Dict.{Dict, lookup}
use tenir.Users.Model.{Role, member, admin, Principal}

-- The values of a JSON object, as far as the code tells them apart; `other` has the rest.
pub data Json : Type 0 where
  text : Text → Json
  number : ℕ → Json
  null : Json
  other : Text → Json

abbrev pub Claims : Type 0
Claims = Dict Text Json

-- The JSON and base64 of a payload, the HMAC of a text under a secret, and `str` of a value.
pub record Crypto : Type 0 where
  pub encode : Claims → Text
  pub decode : Text → Option Claims
  pub mac : Text → Text → Text
  pub str : Json → Text

-- What a check raises: AuthError by its message, and a TypeError.
pub data TokenError : Type 0 where
  malformed_token : TokenError
  bad_signature : TokenError
  malformed_payload : TokenError
  token_expired : TokenError
  type_error : TokenError

pub data Checked (A : Type 0) : Type 0 where
  valid : A → Checked A
  refused : TokenError → Checked A

abbrev pub dot : ℕ
dot = 46

abbrev pub is_ascii : Text → Bool
is_ascii t = not (any (λ c. leb 128 c) t)

-- `hmac.compare_digest` of two `str`; none is its TypeError.
unfoldable pub compare_digest : Text → Text → Option Bool
compare_digest a b = if is_ascii a && is_ascii b then some (a == b) else none

abbrev pub role_name : Role → Text
role_name member = codes "member"
role_name admin = codes "admin"

abbrev pub claim_if : Text → Option Text → Claims
claim_if key none = []
claim_if key (some v) = (key, text v) ∷ []

-- The dictionary that `issue_token` signs, at a time in seconds.
unfoldable pub claims_of : Principal → ℕ → ℕ → Claims
claims_of principal issued ttl_seconds =
    (codes "sub", text principal.user_id)
    ∷ ((codes "un", text principal.username)
        ∷ ((codes "hh", text principal.household)
            ∷ ((codes "role", text (role_name principal.role))
                ∷ ((codes "iat", number issued)
                    ∷ ((codes "exp", number (issued + ttl_seconds))
                        ∷ (claim_if (codes "scp") principal.scope
                            ++ claim_if (codes "jti") principal.token_id))))))

module _ (crypto : Crypto) where
  -- Times are in milliseconds, and claims in seconds.
  unfoldable pub issue_token : Principal → Text → ℕ → ℕ → Text
  issue_token principal secret ttl_seconds now =
      let payload = crypto.encode (claims_of principal (now / 1000) ttl_seconds) in
      payload ++ (dot ∷ crypto.mac payload secret)

  -- `claims.get("exp", 0) < now`; none is the TypeError of a value that is no number.
  unfoldable pub is_expired : Option Json → ℕ → Option Bool
  is_expired none now = some (ltb 0 now)
  is_expired (some (number exp)) now = some (ltb (exp * 1000) now)
  is_expired (some v) now = none

  abbrev pub unexpired : Claims → Option Bool → Checked Claims
  unexpired claims none = refused type_error
  unexpired claims (some true) = refused token_expired
  unexpired claims (some false) = valid claims

  unfoldable pub check_payload : Option Claims → ℕ → Checked Claims
  check_payload none now = refused malformed_payload
  check_payload (some claims) now = unexpired claims (is_expired (lookup (codes "exp") claims) now)

  abbrev pub signed : Option Bool → Checked Claims → Checked Claims
  signed none rest = refused type_error
  signed (some false) rest = refused bad_signature
  signed (some true) rest = rest

  unfoldable pub check_parts : List Text → Text → ℕ → Checked Claims
  check_parts (payload ∷ (sig ∷ [])) secret now =
      signed (compare_digest sig (crypto.mac payload secret))
        (check_payload (crypto.decode payload) now)
  check_parts parts secret now = refused malformed_token

  -- `_decode_claims`
  unfoldable pub decode_claims : Text → Text → ℕ → Checked Claims
  decode_claims token secret now = check_parts (split_on dot token) secret now

  -- `str(claims.get(key, ""))`
  unfoldable pub str_of : Option Json → Text
  str_of none = []
  str_of (some (text t)) = t
  str_of (some v) = crypto.str v

  -- `str(claims[key]) if claims.get(key) is not None else None`
  unfoldable pub str_if : Option Json → Option Text
  str_if none = none
  str_if (some null) = none
  str_if (some v) = some (str_of (some v))

  unfoldable pub role_of : Option Json → Role
  role_of (some (text t)) = if t == codes "admin" then admin else member
  role_of v = member

  -- `float(claims.get("exp", 0))`, after the check that it is a number.
  abbrev pub seconds : Option Json → ℕ
  seconds (some (number n)) = n
  seconds v = 0

  unfoldable pub expiry_of : Option Text → Option Json → Option ℕ
  expiry_of none exp = none
  expiry_of (some scope) exp = some (seconds exp)

  -- `_principal_of`
  unfoldable pub principal_of : Claims → Principal
  principal_of claims = record {
    user_id = str_of (lookup (codes "sub") claims);
    household = str_of (lookup (codes "hh") claims);
    role = role_of (lookup (codes "role") claims);
    username = str_of (lookup (codes "un") claims);
    sub = none;
    email = none;
    email_verified = false;
    groups = [];
    scope = str_if (lookup (codes "scp") claims);
    token_id = str_if (lookup (codes "jti") claims);
    expires_at = expiry_of (str_if (lookup (codes "scp") claims)) (lookup (codes "exp") claims);
  }

  abbrev pub with_principal : Checked Claims → Checked Principal
  with_principal (refused e) = refused e
  with_principal (valid claims) = valid (principal_of claims)

  unfoldable pub decode_token : Text → Text → ℕ → Checked Principal
  decode_token token secret now = with_principal (decode_claims token secret now)

  -- Whether less than half of a token's life is over; a token without a usable `iat` is not young.
  unfoldable pub is_young : Option Json → ℕ → ℕ → Bool
  is_young (some (number iat)) exp now =
      ltb iat exp && ltb (2 * now) (2000 * iat + 1000 * (exp - iat))
  is_young v exp now = false

  -- A fresh token, unless the old one has a scope or is young.
  abbrev pub renew_unless : Option Text → Bool → Text → Option Text
  renew_unless (some scope) young fresh = none
  renew_unless none true fresh = none
  renew_unless none false fresh = some fresh

  -- `renew_token_if_due` of valid claims
  unfoldable pub renew : Claims → Text → ℕ → ℕ → Option Text
  renew claims secret ttl_seconds now =
      renew_unless (str_if (lookup (codes "scp") claims))
        (is_young (lookup (codes "iat") claims) (seconds (lookup (codes "exp") claims)) now)
        (issue_token (principal_of claims) secret ttl_seconds now)

  -- Where a TypeError comes out, the result is that error.
  abbrev pub renew_checked : Checked Claims → Text → ℕ → ℕ → Checked (Option Text)
  renew_checked (valid claims) secret ttl_seconds now = valid (renew claims secret ttl_seconds now)
  renew_checked (refused type_error) secret ttl_seconds now = refused type_error
  renew_checked (refused e) secret ttl_seconds now = valid none

  unfoldable pub renew_token_if_due : Text → Text → ℕ → ℕ → Checked (Option Text)
  renew_token_if_due token secret ttl_seconds now =
      renew_checked (decode_claims token secret now) secret ttl_seconds now
