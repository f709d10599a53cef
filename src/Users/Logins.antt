-- ===== src/Users/Logins.antt =====
-- api/src/api/auth/users.py: what `resolve_oidc_principal` may change in the accounts that are there.
use tenir.Prelude.{
  ◌≡◌, ◌⊎◌, inl, inr, refl, sym, subst, Bool, false, not, ◌||◌, ◌&&◌, Option, none, some, List, [],
  ◌∷◌, arith, ◌==◌, if◌then◌else◌, list_key, nat_key, option_key, Bool-cases, any,
}
use tenir.Prelude.Dict.{lookup}
use tenir.Prelude.Text.{Text}
use tenir.Users.Names.{Unicode, nonempty, normalize_username}
use tenir.Users.Model.{
  User, Role, admin, Principal, Refused, duplicate_user, Outcome, raised, returned,
}
use tenir.Users.Store.{Users, create_oidc, or_else}
use tenir.Users.Invariant.{IsUsers}
use tenir.Users.Updates.{update_oidc-IsUsers}
use tenir.Users.Resolve.{
  Groups, try_names, jit_create, refresh_login, keep_name, match_row, logged_in,
  resolve_oidc_principal, is_env_admin, role_is, is_name_clash, sub_of, has_tenir_group,
  token_is_env_admin,
}
use tenir.Users.Links.{Keeps, Keeps-refl, Keeps-trans, create_oidc-Keeps, update_oidc-Keeps}

Outcome-cases :
    (r : Outcome User) → ((u : User) × (r ≡ returned u)) ⊎ ((e : Refused) × (r ≡ raised e))
Outcome-cases (returned u) = inl (u, refl)
Outcome-cases (raised e) = inr (e, refl)

module _ (unicode : Unicode) where
  keep_name-Keeps :
      (user : User) (role : Role) (r : Users × Outcome User) (s : Users)
      → IsUsers unicode r.0
      → Keeps s r.0
      → Keeps s (keep_name unicode user role r).0
  unfolding keep_name
  keep_name-Keeps user role (t, returned updated) s h k = k
  keep_name-Keeps user role (t, raised e) s h k = elim (Bool-cases (not (is_name_clash e))) [
    | inl fatal ↦ rw fatal k
    | inr clash ↦ rw clash (elim (Bool-cases (role_is role user.role)) [
      | inl same ↦ rw same k
      | inr other ↦
          rw other
            (Keeps-trans s t _ k (update_oidc-Keeps unicode user.user_id none (some role) t h))
    ])
  ]

  refresh_login-Keeps :
      (user : User) (token : Principal) (s : Users)
      → IsUsers unicode s
      → Keeps s (refresh_login unicode user token s).0
  unfolding refresh_login
  refresh_login-Keeps user token s h =
      let role : Role = if is_env_admin unicode user s then admin else token.role in
      let username : Text =
        if is_env_admin unicode user s
        then user.username
        else or_else (nonempty (normalize_username unicode token.username)) user.username in
      elim (Bool-cases (username == user.username && role_is role user.role)) [
        | inl same ↦ rw (same, refresh_login) (Keeps-refl s)
        | inr other ↦
            rw (other, refresh_login)
              (keep_name-Keeps user role _ s
                (update_oidc-IsUsers unicode user.user_id none (some username) (some role) s h)
                (update_oidc-Keeps unicode user.user_id (some username) (some role) s h))
      ]

  create_oidc-refused :
      (new_id oidc_sub : Text) (email : Option Text) (username household : Text) (role : Role)
      (s : Users) (e : Refused)
      → (create_oidc unicode new_id oidc_sub email username household role s).1 ≡ raised e
      → (create_oidc unicode new_id oidc_sub email username household role s).0 ≡ s
  unfolding create_oidc
  create_oidc-refused new_id oidc_sub email username household role s e h = ground arith

  try_names-Keeps :
      (cs : List Text) (new_id : Text) (token : Principal) (email : Option Text) (seen : List Text)
      (last : Refused) (s : Users)
      → lookup new_id s.by_id ≡ none
      → Keeps s (try_names unicode new_id token email cs seen last s).0
  unfolding try_names
  try_names-Keeps [] new_id token email seen last s fresh = Keeps-refl s
  try_names-Keeps (c ∷ cs) new_id token email seen last s fresh =
      let candidate = normalize_username unicode c in
      let seen' : List Text = unicode.lower candidate ∷ seen in
      let made =
        create_oidc unicode new_id (sub_of token) email candidate token.household token.role s in
      let skip : Bool = candidate == [] || any (λ n. n == unicode.lower candidate) seen in
      let kept =
        create_oidc-Keeps unicode new_id (sub_of token) email candidate token.household token.role s
          fresh in
      elim (Bool-cases skip) [
        | inl skipped ↦
            rw (skipped, try_names) (try_names-Keeps cs new_id token email seen last s fresh)
        | inr tried ↦
            rw (tried, try_names)
              (elim (Outcome-cases made.1) [
                | inl (user, e) ↦ rw e kept
                | inr (r, e) ↦
                    let same =
                      create_oidc-refused new_id (sub_of token) email candidate token.household
                        token.role s r e in
                    rw (e, same) (try_names-Keeps cs new_id token email seen' r s fresh)
              ])
      ]

  logged_in-Keeps :
      (new_id : Text) (token : Principal) (r : (Users × Outcome (Option User)) × Option Text)
      → lookup new_id r.0.0.by_id ≡ none
      → IsUsers unicode r.0.0
      → Keeps r.0.0 (logged_in unicode new_id token r).0
  unfolding logged_in jit_create
  logged_in-Keeps new_id token ((s, raised e), jit_email) fresh h = Keeps-refl s
  logged_in-Keeps new_id token ((s, returned none), jit_email) fresh h =
      try_names-Keeps _ new_id token jit_email [] duplicate_user s fresh
  logged_in-Keeps new_id token ((s, returned (some user)), jit_email) fresh h =
      refresh_login-Keeps user token s h

  match_row-unverified :
      (token : Principal) (s : Users)
      → token.email_verified ≡ false
      → (match_row unicode token s).0.0 ≡ s
  unfolding match_row
  match_row-unverified token s unverified = ground arith

  -- A login whose email is not verified takes over no account: each row that is there keeps its id,
  -- its OIDC link, its email, household and password. The new id is not one of a stored row, and
  -- the indexes are right.
  pub unverified_links_nothing :
      (settings : Groups) (new_id : Text) (token : Principal) (s : Users)
      → token.email_verified ≡ false
      → lookup new_id s.by_id ≡ none
      → IsUsers unicode s
      → Keeps s (resolve_oidc_principal unicode settings new_id token s).0
  unfolding resolve_oidc_principal
  unverified_links_nothing settings new_id token s unverified fresh h =
      let gate : Bool =
        not (has_tenir_group settings token) && not (token_is_env_admin unicode token s) in
      let same = match_row-unverified token s unverified in
      elim (Bool-cases gate) [
        | inl denied ↦ rw (denied, resolve_oidc_principal) (Keeps-refl s)
        | inr allowed ↦
            rw (allowed, resolve_oidc_principal)
              (subst (λ t. Keeps t (logged_in unicode new_id token (match_row unicode token s)).0)
                same
                (logged_in-Keeps new_id token (match_row unicode token s)
                  (subst (λ t. lookup new_id t.by_id ≡ none) (sym same) fresh)
                  (subst (λ t. IsUsers unicode t) (sym same) h)))
      ]
