-- ===== src/Users/Store.antt =====
-- api/src/api/auth/users.py: `InMemoryUserStore`. Each method holds the store's lock, so it is one
-- function; the new id of a row or token and the time are arguments, and so is the hash of a password
-- (with the salt that it drew). A stored User is never changed in place, so it is a value.
use tenir.Prelude.{
  Bool, true, false, ◌&&◌, ◌||◌, not, Option, none, some, [], keep_if, ◌==◌, list_key, nat_key,
  option_key, if◌then◌else◌,
}
use tenir.Prelude.Dict.{Dict, lookup, insert, remove}
use tenir.Prelude.Text.{Text}
use tenir.Users.Names.{
  Unicode, is_lookup_safe, nonempty, normalize_username, new_username, renamed_username, norm,
  username_key,
}
use tenir.Users.Model.{
  Role, User, DeviceToken, Refused, duplicate_user, invalid_value, no_such_user, Outcome, raised,
  returned,
}

pub record Users : Type 0 where
  pub by_username : Dict Text User
  pub by_id : Dict Text User
  pub by_oidc_sub : Dict Text User
  pub by_email : Dict Text User
  pub env_admin_id : Option Text
  pub device_tokens : Dict Text DeviceToken

abbrev pub no_users : Users
no_users = record {
  by_username = [];
  by_id = [];
  by_oidc_sub = [];
  by_email = [];
  env_admin_id = none;
  device_tokens = [];
}

abbrev pub is_some {ℓ} : {A : Type ℓ} → Option A → Bool
is_some none = false
is_some (some a) = true

-- A string that may be missing, where Python takes the empty one for none.
abbrev pub truthy : Option Text → Option Text
truthy none = none
truthy (some t) = nonempty t

-- An index over a key that a row may not have.
unfoldable pub enter : Option Text → User → Dict Text User → Dict Text User
enter none user d = d
enter (some key) user d = insert key user d

unfoldable pub leave : Option Text → Dict Text User → Dict Text User
leave none d = d
leave (some key) d = remove key d

unfoldable pub find : Option Text → Dict Text User → Option User
find none d = none
find (some key) d = lookup key d

-- Whether a row other than `user_id` has the key.
unfoldable pub taken : Text → Option Text → Dict Text User → Bool
taken user_id key d = elim (find key d) [
  | none ↦ false
  | some owner ↦ not (owner.user_id == user_id)
]

abbrev pub or_else {ℓ} : {A : Type ℓ} → Option A → A → A
or_else none a = a
or_else (some b) a = b

module _ (unicode : Unicode) where
  -- `_index`
  unfoldable pub index : User → Users → Users
  index user s = record s {
    by_username = insert (username_key unicode user.username) user s.by_username;
    by_id = insert user.user_id user s.by_id;
    by_oidc_sub = enter (truthy user.oidc_sub) user s.by_oidc_sub;
    by_email = enter (norm unicode user.email) user s.by_email;
  }

  -- `_deindex`
  unfoldable pub deindex : User → Users → Users
  deindex user s = record s {
    by_username = remove (username_key unicode user.username) s.by_username;
    by_oidc_sub = leave (truthy user.oidc_sub) s.by_oidc_sub;
    by_email = leave (norm unicode user.email) s.by_email;
  }

  unfoldable pub create :
      Text → Text → Text → Text → Role → Bool → Option Text → Users → Users × Outcome User
  create new_id username hash household role is_env_admin email s =
      elim (new_username unicode username) [
        | none ↦ (s, raised invalid_value)
        | some name ↦
            if is_some (lookup (unicode.lower name) s.by_username)
              || is_some (find (norm unicode email) s.by_email)
            then (s, raised duplicate_user)
            else (let user : User = record {
              user_id = new_id;
              username = name;
              household = household;
              role = role;
              password_hash = some hash;
              oidc_sub = none;
              email = email;
            } in
                let s' = index user s in
                (
                  record s' {
                    env_admin_id = if is_env_admin then some new_id else s'.env_admin_id;
                  },
                  returned user,
                ))
      ]

  unfoldable pub create_oidc :
      Text → Text → Option Text → Text → Text → Role → Users → Users × Outcome User
  create_oidc new_id oidc_sub email username household role s =
      elim (new_username unicode username) [
        | none ↦ (s, raised invalid_value)
        | some name ↦
            if is_some (lookup (unicode.lower name) s.by_username)
              || (is_some (lookup oidc_sub s.by_oidc_sub)
                  || is_some (find (norm unicode email) s.by_email))
            then (s, raised duplicate_user)
            else (let user : User = record {
              user_id = new_id;
              username = name;
              household = household;
              role = role;
              password_hash = none;
              oidc_sub = some oidc_sub;
              email = email;
            } in
                (index user s, returned user))
      ]

  unfoldable pub get_by_username : Text → Users → Option User
  get_by_username username s =
      let key = username_key unicode username in
      if key == [] || not (is_lookup_safe username) then none else elim (lookup key s.by_username) [
        | none ↦ lookup (unicode.lower (normalize_username unicode username)) s.by_username
        | some user ↦ some user
      ]

  unfoldable pub get_by_oidc_sub : Text → Users → Option User
  get_by_oidc_sub oidc_sub s = find (nonempty oidc_sub) s.by_oidc_sub

  unfoldable pub get_by_email : Text → Users → Option User
  get_by_email email s = find (norm unicode (some email)) s.by_email

  unfoldable pub get_env_admin : Users → Option User
  get_env_admin s = find (truthy s.env_admin_id) s.by_id

  unfoldable pub delete_user : Text → Users → Users × Option Refused
  delete_user user_id s = elim (lookup user_id s.by_id) [
    | none ↦ (s, some no_such_user)
    | some user ↦
        (let s' = deindex user (record s { by_id = remove user_id s.by_id }) in
          (
            record s' {
              env_admin_id = if s'.env_admin_id == some user_id then none else s'.env_admin_id;
              device_tokens = keep_if (λ e. not (e.1.user_id == user_id)) s'.device_tokens;
            },
            none,
          ))
  ]

  unfoldable pub authenticate : (Text → Text → Bool) → Text → Text → Users → Option User
  authenticate verify_password username password s = elim (get_by_username username s) [
    | none ↦ none
    | some user ↦ elim (truthy user.password_hash) [
      | none ↦ none
      | some hash ↦ if verify_password password hash then some user else none
    ]
  ]

  -- The row of `update_credentials` and `update_oidc` in place of the old one.
  unfoldable pub put : User → User → Users → Users
  put user updated s = index updated (deindex user s)

  -- The guard on a username that both updates share.
  unfoldable pub name_taken : User → Text → Users → Bool
  name_taken user name s =
      not (username_key unicode name == username_key unicode user.username)
      && is_some (lookup (username_key unicode name) s.by_username)

  unfoldable pub update_credentials :
      Text → Option Text → Option Text → Option Text → Option Text → Users → Users × Outcome User
  update_credentials user_id username hash household email s = elim (lookup user_id s.by_id) [
    | none ↦ (s, raised no_such_user)
    | some user ↦ elim (renamed_username unicode user.username username) [
      | none ↦ (s, raised invalid_value)
      | some name ↦
          (let new_email : Option Text = elim email [ none ↦ user.email | some e ↦ some e ] in
            let updated : User = record user {
              username = name;
              household = or_else household user.household;
              password_hash = elim hash [ none ↦ user.password_hash | some h ↦ some h ];
              email = new_email;
            } in
            if name_taken user name s
              || (not (norm unicode new_email == norm unicode user.email)
                  && taken user_id (norm unicode new_email) s.by_email)
            then (s, raised duplicate_user)
            else (put user updated s, returned updated))
    ]
  ]

  unfoldable pub update_oidc :
      Text → Option Text → Option Text → Option Role → Users → Users × Outcome User
  update_oidc user_id oidc_sub username role s = elim (lookup user_id s.by_id) [
    | none ↦ (s, raised no_such_user)
    | some user ↦ elim (renamed_username unicode user.username username) [
      | none ↦ (s, raised invalid_value)
      | some name ↦
          (let new_sub : Option Text = elim oidc_sub [ none ↦ user.oidc_sub | some o ↦ some o ] in
            let updated : User = record user {
              username = name;
              role = or_else role user.role;
              oidc_sub = new_sub;
            } in
            if name_taken user name s
              || (not (new_sub == user.oidc_sub) && taken user_id (truthy new_sub) s.by_oidc_sub)
            then (s, raised duplicate_user)
            else (put user updated s, returned updated))
    ]
  ]
