-- ===== src/Tests/Auth.antt =====
-- Runs of the tokens of api/src/api/auth/tokens.py, with a payload that writes every number in unary
-- and one signature.
use tenir.Prelude.{
  ℕ, zero, suc, ◌≡◌, ◌∙◌, refl, ap, true, false, none, some, List, [], ◌∷◌, length, nat_key,
  list_key, arith,
}
use tenir.Prelude.Text.{Text, codes}
use tenir.Prelude.Split.{split_on, has}
use tenir.Prelude.Dict.{lookup}
use tenir.Users.Model.{admin, Principal}
use tenir.Auth.Tokens.{
  Json, text, number, null, other, Claims, Crypto, valid, refused, type_error, dot, compare_digest,
  claims_of, issue_token, is_expired, check_payload, check_parts, decode_claims, str_of, str_if,
  role_of, expiry_of, principal_of, decode_token, is_young, renew, renew_token_if_due,
}
use tenir.Auth.Issued.{Codec, built_in, decode_token-issue_token}
use tenir.Auth.Accepted.{Genuine, decode_claims-Genuine}
use tenir.Auth.Renewed.{renew_token_if_due_same}

program : Unit {0}
unfolding lookup split_on compare_digest claims_of issue_token is_expired check_payload check_parts
    decode_claims str_of str_if role_of expiry_of principal_of decode_token is_young renew
    renew_token_if_due
program = tt

abbrev unary : ℕ → Text → Text
unary zero k = 0 ∷ k
unary (suc n) k = 1 ∷ unary n k

abbrev one_more : {A : Type 0} → ℕ × A → ℕ × A
one_more (n, k) = (suc n, k)

abbrev read_unary : Text → ℕ × Text
read_unary [] = (0, [])
read_unary (zero ∷ k) = (0, k)
read_unary (suc c ∷ k) = one_more (read_unary k)

read_unary-unary : (n : ℕ) (k : Text) → read_unary (unary n k) ≡ (n, k)
read_unary-unary zero k = refl
read_unary-unary (suc n) k = ap one_more (read_unary-unary n k)

has-unary : (n : ℕ) (k : Text) → has dot (unary n k) ≡ has dot k
has-unary zero k = refl
has-unary (suc n) k = has-unary n k

abbrev write_all : Text → Text → Text
write_all [] k = k
write_all (x ∷ xs) k = unary x (write_all xs k)

abbrev in_front : {A : Type 0} → A → List A × Text → List A × Text
in_front x (xs, k) = (x ∷ xs, k)

abbrev read_many : ℕ → Text → Text × Text
read_many zero k = ([], k)
read_many (suc n) k = let (x, r) = read_unary k in in_front x (read_many n r)

read_many-write_all : (xs k : Text) → read_many (length xs) (write_all xs k) ≡ (xs, k)
read_many-write_all [] k = refl
read_many-write_all (x ∷ xs) k =
    rw (read_unary-unary x (write_all xs k), read_many-write_all xs k) refl

abbrev write_text : Text → Text → Text
write_text t k = unary (length t) (write_all t k)

abbrev read_text : Text → Text × Text
read_text k = let (n, r) = read_unary k in read_many n r

read_text-write_text : (t k : Text) → read_text (write_text t k) ≡ (t, k)
read_text-write_text t k =
    rw (read_unary-unary (length t) (write_all t k)) (read_many-write_all t k)

abbrev write_json : Json → Text → Text
write_json (text t) k = unary 0 (write_text t k)
write_json (number n) k = unary 1 (write_text (n ∷ []) k)
write_json null k = unary 2 (write_text [] k)
write_json (other t) k = unary 3 (write_text t k)

abbrev made : ℕ → Text → Json
made zero t = text t
made (suc zero) [] = null
made (suc zero) (n ∷ ns) = number n
made (suc (suc zero)) t = null
made (suc (suc (suc n))) t = other t

abbrev read_json : Text → Json × Text
read_json k = let (tag, r) = read_unary k in let (t, r') = read_text r in (made tag t, r')

read_json-write_json : (v : Json) (k : Text) → read_json (write_json v k) ≡ (v, k)
read_json-write_json (text t) k = rw (read_text-write_text t k) refl
read_json-write_json (number n) k = ap (λ x. (made 1 x.0, x.1)) (read_text-write_text (n ∷ []) k)
read_json-write_json null k = refl
read_json-write_json (other t) k = rw (read_text-write_text t k) refl

abbrev write_claims : Claims → Text
write_claims [] = []
write_claims ((key, v) ∷ c) = write_text key (write_json v (write_claims c))

abbrev read_claims : ℕ → Text → Claims
read_claims zero k = []
read_claims (suc n) k =
    let (key, r) = read_text k in let (v, r') = read_json r in (key, v) ∷ read_claims n r'

read_claims-write_claims : (c : Claims) → read_claims (length c) (write_claims c) ≡ c
read_claims-write_claims [] = refl
read_claims-write_claims ((key, v) ∷ c) =
    rw (read_text-write_text key (write_json v (write_claims c))) (
      ap (λ x. (key, x.0) ∷ read_claims (length c) x.1) (read_json-write_json v (write_claims c))
      ∙ ap (◌∷◌ (key, v)) (read_claims-write_claims c))

has-write_all : (xs k : Text) → has dot (write_all xs k) ≡ has dot k
has-write_all [] k = refl
has-write_all (x ∷ xs) k = has-unary x (write_all xs k) ∙ has-write_all xs k

has-write_text : (t k : Text) → has dot (write_text t k) ≡ has dot k
has-write_text t k = has-unary (length t) (write_all t k) ∙ has-write_all t k

has-write_json : (v : Json) (k : Text) → has dot (write_json v k) ≡ has dot k
has-write_json (text t) k = has-write_text t k
has-write_json (number n) k = has-write_text (n ∷ []) k
has-write_json null k = refl
has-write_json (other t) k = has-write_text t k

has-write_claims : (c : Claims) → has dot (write_claims c) ≡ false
has-write_claims [] = refl
has-write_claims ((key, v) ∷ c) =
    has-write_text key (write_json v (write_claims c))
    ∙ has-write_json v (write_claims c)
    ∙ has-write_claims c

abbrev plain_crypto : Crypto
plain_crypto = record {
  encode = λ c. unary (length c) (write_claims c);
  decode = λ t. let (n, r) = read_unary t in some (read_claims n r);
  mac = λ p secret. codes "sig";
  str = λ v. [];
}

plain-Codec : Codec plain_crypto
plain-Codec = record {
  decode_encode =
      λ c. rw (read_unary-unary (length c) (write_claims c)) (ap some (read_claims-write_claims c));
  payload_no_dot = λ c. has-unary (length c) (write_claims c) ∙ has-write_claims c;
  mac_no_dot = λ p secret. refl;
  mac_ascii = λ p secret. refl;
}

abbrev ana : Principal
ana = record {
  user_id = codes "u1";
  household = codes "home";
  role = admin;
  username = codes "ana";
  sub = some (codes "sub1");
  email = none;
  email_verified = true;
  groups = [];
  scope = none;
  token_id = none;
  expires_at = none;
}

abbrev token : Text
token = issue_token plain_crypto ana (codes "key") 100 7500

-- Issued at 7 s for 100 s.
decode_token-issue_token_example :
    decode_token plain_crypto token (codes "key") 107000 ≡ valid (built_in ana 107)
decode_token-issue_token_example =
    decode_token-issue_token plain_crypto plain-Codec ana (codes "key") 100 7500 107000

decoded_claims : decode_claims plain_crypto token (codes "key") 60000 ≡ valid (claims_of ana 7 100)
unfolding program
decoded_claims = refl

decode_claims-Genuine_example : Genuine plain_crypto token (codes "key") 60000 (claims_of ana 7 100)
decode_claims-Genuine_example =
    decode_claims-Genuine plain_crypto token (codes "key") 60000 (claims_of ana 7 100)
      decoded_claims

renewed :
    renew_token_if_due plain_crypto token (codes "key") 100 60000
    ≡ valid (some (issue_token plain_crypto (built_in ana 107) (codes "key") 100 60000))
unfolding program
renewed = refl

renew_token_if_due_same_example :
    (p : Principal) × ((decode_token plain_crypto token (codes "key") 60000 ≡ valid p)
      × ((p.scope ≡ none)
          × (decode_token plain_crypto
                (issue_token plain_crypto (built_in ana 107) (codes "key") 100 60000)
                (codes "key")
                90000
              ≡ valid p)))
renew_token_if_due_same_example =
    renew_token_if_due_same plain_crypto plain-Codec token (codes "key")
      (issue_token plain_crypto (built_in ana 107) (codes "key") 100 60000) 100 60000 90000 renewed
      (omega arith)

-- A signature beyond ASCII is no AuthError.
foreign_signature : decode_token plain_crypto (codes "abc.é") (codes "key") 0 ≡ refused type_error
unfolding program
foreign_signature = refl
