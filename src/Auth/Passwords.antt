-- ===== src/Auth/Passwords.antt =====
-- api/src/api/auth/tokens.py: password hashes.
use tenir.Prelude.{
  ℕ, zero, suc, ◌≡◌, ◌∙◌, refl, ap, Bool, false, Option, none, some, List, [], ◌∷◌, ◌++◌, ◌==◌,
  nat_key, list_key, if◌then◌else◌,
}
use tenir.Prelude.Text.{Text, codes}
use tenir.Prelude.Split.{split_on, has, split_on-first, split_on-plain}

abbrev pub Bytes : Type 0
Bytes = List ℕ

-- PBKDF2 by password, salt and iterations, the hexadecimal of bytes, and the decimal of a number.
pub record Pbkdf2 : Type 0 where
  pub derive : Text → Bytes → ℕ → Bytes
  pub hex : Bytes → Text
  pub from_hex : Text → Option Bytes
  pub decimal : ℕ → Text
  pub from_decimal : Text → Option ℕ

abbrev pub dollar : ℕ
dollar = 36

abbrev pub scheme_name : Text
scheme_name = codes "pbkdf2_sha256"

module _ (kdf : Pbkdf2) where
  -- `hash_password` with the random salt.
  unfoldable pub hash_password : Text → ℕ → Bytes → Text
  hash_password password iterations salt =
      scheme_name
      ++ (dollar
          ∷ (kdf.decimal iterations
              ++ (dollar
                  ∷ (kdf.hex salt ++ (dollar ∷ kdf.hex (kdf.derive password salt iterations))))))

  -- The digest of the password against the stored one; none is the ValueError, which
  -- no iterations at all give too.
  abbrev pub same_digest : Text → Option Bytes → Option Bytes → Option ℕ → Bool
  same_digest password none salt iterations = false
  same_digest password (some expected) none iterations = false
  same_digest password (some expected) (some salt) none = false
  same_digest password (some expected) (some salt) (some zero) = false
  same_digest password (some expected) (some salt) (some (suc n)) =
      kdf.derive password salt (suc n) == expected

  unfoldable pub verify_parts : Text → List Text → Bool
  verify_parts password (scheme ∷ (iterations ∷ (salt ∷ (hash ∷ [])))) =
      if scheme == scheme_name
      then same_digest password (kdf.from_hex hash) (kdf.from_hex salt)
          (kdf.from_decimal iterations)
      else false
  verify_parts password parts = false

  unfoldable pub verify_password : Text → Text → Bool
  verify_password password encoded = verify_parts password (split_on dollar encoded)

  -- What the code relies on: hexadecimal and decimal are read back, and have no dollar.
  pub record Digits : Type 0 where
    pub from_hex-hex : (b : Bytes) → kdf.from_hex (kdf.hex b) ≡ some b
    pub from_decimal-decimal : (n : ℕ) → kdf.from_decimal (kdf.decimal n) ≡ some n
    pub has-hex : (b : Bytes) → has dollar (kdf.hex b) ≡ false
    pub has-decimal : (n : ℕ) → has dollar (kdf.decimal n) ≡ false

  verified :
      (digits : Digits) (password tried : Text) (n : ℕ) (salt : Bytes)
      → verify_parts tried (
          scheme_name
          ∷ (kdf.decimal (suc n)
              ∷ (kdf.hex salt ∷ (kdf.hex (kdf.derive password salt (suc n)) ∷ []))))
        ≡ (kdf.derive tried salt (suc n) == kdf.derive password salt (suc n))
  unfolding verify_parts
  verified digits password tried n salt =
      rw
        (
          digits.from_hex-hex (kdf.derive password salt (suc n)),
          digits.from_hex-hex salt,
          digits.from_decimal-decimal (suc n),
        )
        refl

  -- A password passes against a hash exactly when it gives the digest of the password that was hashed.
  pub verify_password-hash_password :
      (digits : Digits) (password tried : Text) (n : ℕ) (salt : Bytes)
      → verify_password tried (hash_password password (suc n) salt)
        ≡ (kdf.derive tried salt (suc n) == kdf.derive password salt (suc n))
  unfolding verify_password hash_password
  verify_password-hash_password digits password tried n salt =
      ap (verify_parts tried) (
        split_on-first dollar scheme_name _ refl
        ∙ ap (◌∷◌ scheme_name) (
            split_on-first dollar (kdf.decimal (suc n)) _ (digits.has-decimal (suc n))
            ∙ ap (◌∷◌ (kdf.decimal (suc n))) (
                split_on-first dollar (kdf.hex salt) _ (digits.has-hex salt)
                ∙ ap (◌∷◌ (kdf.hex salt)) (split_on-plain dollar _ (digits.has-hex _)))))
      ∙ verified digits password tried n salt
