-- ===== src/Users/Resolve.antt =====
-- api/src/api/auth/users.py: `resolve_oidc_principal`, from a validated OIDC token to the account.
use tenir.Prelude.{
  Bool, true, false, ◌&&◌, ◌||◌, not, Option, none, some, List, [], ◌∷◌, any, ◌==◌, list_key,
  nat_key, option_key, if◌then◌else◌,
}
use tenir.Prelude.Text.{Text, strip}
use tenir.Users.Names.{Unicode, nonempty, normalize_username}
use tenir.Users.Model.{
  Role, admin, member, User, Principal, Refused, duplicate_user, invalid_value, access_denied,
  Outcome, raised, returned,
}
use tenir.Users.Store.{
  Users, truthy, or_else, get_by_oidc_sub, get_by_email, get_env_admin, create_oidc, update_oidc,
}

-- What `settings` says of the groups.
pub record Groups : Type 0 where
  pub oidc_admin_group : Text
  pub oidc_member_group : Text

unfoldable pub has_tenir_group : Groups → Principal → Bool
has_tenir_group settings token =
    any (λ g. settings.oidc_admin_group == g) token.groups
    || any (λ g. settings.oidc_member_group == g) token.groups

abbrev pub role_is : Role → Role → Bool
role_is admin admin = true
role_is member member = true
role_is admin member = false
role_is member admin = false

-- `_principal_for`
unfoldable pub principal_for : User → Principal → Principal
principal_for user token = record {
  user_id = user.user_id;
  household = user.household;
  role = user.role;
  username = user.username;
  sub = token.sub;
  email = token.email;
  email_verified = token.email_verified;
  groups = token.groups;
  scope = none;
  token_id = none;
  expires_at = none;
}

-- `email.split("@", 1)[0]`
unfoldable pub local_part : Text → Text
local_part [] = []
local_part (c ∷ cs) = let rest = local_part cs in if c == 0x40 then [] else c ∷ rest

abbrev pub sub_of : Principal → Text
sub_of token = or_else token.sub []

-- `DuplicateUser` and `InvalidUserValue`, which a login survives.
abbrev pub is_name_clash : Refused → Bool
is_name_clash duplicate_user = true
is_name_clash invalid_value = true
is_name_clash _ = false

module _ (unicode : Unicode) where
  -- `_token_is_env_admin`
  unfoldable pub token_is_env_admin : Principal → Users → Bool
  token_is_env_admin token s = elim (get_env_admin unicode s) [
    | none ↦ false
    | some env_admin ↦
        env_admin.oidc_sub == some (sub_of token)
        || (token.email_verified && elim (truthy token.email) [
          | none ↦ false
          | some mine ↦ elim (truthy env_admin.email) [
            | none ↦ false
            | some its ↦ unicode.lower its == unicode.lower mine
          ]
        ])
  ]

  unfoldable pub is_env_admin : User → Users → Bool
  is_env_admin user s = elim (get_env_admin unicode s) [
    | none ↦ false
    | some env_admin ↦ env_admin.user_id == user.user_id
  ]

  -- `_refresh_login` once the write of both is answered.
  unfoldable pub keep_name : User → Role → Users × Outcome User → Users × Outcome User
  keep_name user role (s', returned updated) = (s', returned updated)
  keep_name user role (s', raised e) =
      if not (is_name_clash e)
      then (s', raised e)
      else if role_is role user.role
      then (s', returned user)
      else update_oidc unicode user.user_id none none (some role) s'

  unfoldable pub refresh_login : User → Principal → Users → Users × Outcome User
  refresh_login user token s =
      let role : Role = if is_env_admin user s then admin else token.role in
      let username : Text =
        if is_env_admin user s
        then user.username
        else or_else (nonempty (normalize_username unicode token.username)) user.username in
      if username == user.username && role_is role user.role
      then (s, returned user)
      else keep_name user role (update_oidc unicode user.user_id none (some username) (some role) s)

  -- The loop of `_jit_create`.
  unfoldable pub try_names :
      Text
      → Principal
      → Option Text
      → List Text
      → List Text
      → Refused
      → Users
      → Users × Outcome User
  try_names new_id token email [] seen last s = (s, raised last)
  try_names new_id token email (c ∷ cs) seen last s =
      let candidate = normalize_username unicode c in
      let skipped = try_names new_id token email cs seen last s in
      let made =
        create_oidc unicode new_id (sub_of token) email candidate token.household token.role s in
      let seen' = unicode.lower candidate ∷ seen in
      if candidate == [] || any (λ n. n == unicode.lower candidate) seen
      then skipped
      else elim made.1 [
        | returned user ↦ made
        | raised e ↦ try_names new_id token email cs seen' e made.0
      ]

  unfoldable pub jit_create : Text → Principal → Option Text → Users → Users × Outcome User
  jit_create new_id token email s =
      try_names new_id token email
        (strip token.username
          ∷ elim (truthy email) [ none ↦ [] | some e ↦ local_part e ]
          ∷ sub_of token
          ∷ [])
        [] duplicate_user s

  -- The row that the token stands for, if there is one, and the email that a new row may store.
  unfoldable pub match_row : Principal → Users → (Users × Outcome (Option User)) × Option Text
  match_row token s =
      let jit_email : Option Text = if token.email_verified then token.email else none in
      elim (get_by_oidc_sub unicode (sub_of token) s) [
        | some user ↦ ((s, returned (some user)), jit_email)
        | none ↦ elim (if token.email_verified then truthy token.email else none) [
          | none ↦ ((s, returned none), jit_email)
          | some email ↦ elim (get_by_email unicode email s) [
            | none ↦ ((s, returned none), jit_email)
            | some match ↦ elim match.oidc_sub [
              | some other ↦ ((s, returned none), none)
              | none ↦
                  (let linked =
                      update_oidc unicode match.user_id (some (sub_of token)) none none s in
                    (
                      (
                        linked.0,
                        elim linked.1 [
                          | raised e ↦ raised e
                          | returned user ↦ returned (some user)
                        ],
                      ),
                      jit_email,
                    ))
            ]
          ]
        ]
      ]

  unfoldable pub logged_in :
      Text → Principal → (Users × Outcome (Option User)) × Option Text → Users × Outcome User
  logged_in new_id token ((s, raised e), jit_email) = (s, raised e)
  logged_in new_id token ((s, returned none), jit_email) = jit_create new_id token jit_email s
  logged_in new_id token ((s, returned (some user)), jit_email) = refresh_login user token s

  unfoldable pub resolve_oidc_principal :
      Groups → Text → Principal → Users → Users × Outcome Principal
  resolve_oidc_principal settings new_id token s =
      if not (has_tenir_group settings token) && not (token_is_env_admin token s)
      then (s, raised access_denied)
      else (let (s', found) = logged_in new_id token (match_row token s) in
          (
            s',
            elim found [
              | raised e ↦ raised e
              | returned user ↦ returned (principal_for user token)
            ],
          ))
