-- ===== src/Tests/Users.antt =====
-- Runs of api/src/api/auth/users.py.
use tenir.Prelude.{arith, ◌≡◌, refl, true, false, none, some, List, [], ◌∷◌, ltb, list_key, nat_key}
use tenir.Prelude.Dict.{lookup, insert, remove}
use tenir.Prelude.Text.{codes, strip}
use tenir.Users.Names.{
  Unicode, is_lookup_safe, normalize_username, is_invisible, new_username, renamed_username, norm,
  username_key,
}
use tenir.Users.Model.{DeviceToken, User, member, Principal, returned}
use tenir.Users.Store.{
  Users, no_users, enter, leave, find, taken, index, deindex, put, name_taken, create, create_oidc,
  get_by_username, get_by_oidc_sub, get_by_email, get_env_admin, delete_user, authenticate,
  update_credentials, update_oidc,
}
use tenir.Users.Resolve.{
  Groups, has_tenir_group, principal_for, local_part, token_is_env_admin, is_env_admin, keep_name,
  refresh_login, try_names, jit_create, match_row, logged_in, resolve_oidc_principal,
}
use tenir.Users.Invariant.{IsUsers}
use tenir.Users.Calls.{
  Call, creates, creates_oidc, after, after_all, Fresh, AllFresh, after_all-IsUsers,
  no_users-IsUsers,
}
use tenir.Users.Devices.{create_device_token, device_token_is_live, revoke_device_token}
use tenir.Users.Devices.Limit.{
  Limited, DeviceCall, mints, after_device_calls, after_device_calls-Limited,
}
use tenir.Users.Devices.Revoked.{revoke_is_final}
use tenir.Users.Links.{Keeps}
use tenir.Users.Logins.{unverified_links_nothing}

-- Names of small Latin letters need no normalizing.
abbrev plain : Unicode
plain = record {
  nfkc = λ t. t;
  lower = λ t. t;
  is_unprintable = λ c. ltb c 32;
  is_mark = λ c. false;
}

abbrev tenir_groups : Groups
tenir_groups = record { oidc_admin_group = codes "admins"; oidc_member_group = codes "members" }

-- Ana, with a password and an email, and then Bo, from an OIDC login.
abbrev two_accounts : List Call
two_accounts =
    creates (codes "u1") (codes "ana") (codes "hash") (codes "home") member false
      (some (codes "ana@x"))
    ∷ creates_oidc (codes "u2") (codes "sub2") none (codes " bo ") (codes "home") member
    ∷ []

abbrev accounts : Users
accounts = after_all plain two_accounts no_users

-- A login by someone who only claims Ana's email.
abbrev claim : Principal
claim = record {
  user_id = codes "sub3";
  household = codes "home";
  role = member;
  username = codes "ana";
  sub = some (codes "sub3");
  email = some (codes "ana@x");
  email_verified = false;
  groups = codes "members" ∷ [];
  scope = none;
  token_id = none;
  expires_at = none;
}

program : Unit {0}
unfolding lookup insert remove strip is_lookup_safe normalize_username is_invisible new_username
    renamed_username norm username_key enter leave find taken index deindex put name_taken create
    create_oidc get_by_username get_by_oidc_sub get_by_email get_env_admin delete_user authenticate
    update_credentials update_oidc has_tenir_group principal_for local_part token_is_env_admin
    is_env_admin keep_name refresh_login try_names jit_create match_row logged_in
    create_device_token device_token_is_live revoke_device_token after_device_calls Limited
    resolve_oidc_principal after after_all Fresh AllFresh
program = tt

two_accounts-AllFresh : AllFresh plain two_accounts no_users
unfolding program
two_accounts-AllFresh = (refl, (refl, tt))

after_all-IsUsers_example : IsUsers plain (after_all plain two_accounts no_users)
after_all-IsUsers_example =
    after_all-IsUsers plain two_accounts no_users two_accounts-AllFresh (no_users-IsUsers plain)

abbrev ana : User
ana = record {
  user_id = codes "u1";
  username = codes "ana";
  household = codes "home";
  role = member;
  password_hash = some (codes "hash");
  oidc_sub = none;
  email = some (codes "ana@x");
}

ana_stored : lookup (codes "u1") (after_all plain two_accounts no_users).by_id ≡ some ana
unfolding program
ana_stored = refl

ana_key : username_key plain ana.username ≡ codes "ana"
unfolding program
ana_key = refl

u3_free : lookup (codes "u3") (after_all plain two_accounts no_users).by_id ≡ none
unfolding program
u3_free = refl

accounts-IsUsers : IsUsers plain (after_all plain two_accounts no_users)
accounts-IsUsers =
    after_all-IsUsers plain two_accounts no_users two_accounts-AllFresh (no_users-IsUsers plain)

unverified_links_nothing_example :
    Keeps
      (after_all plain two_accounts no_users)
      (resolve_oidc_principal plain tenir_groups
        (codes "u3")
        claim
        (after_all plain two_accounts no_users)).0
unverified_links_nothing_example =
    unverified_links_nothing plain tenir_groups (codes "u3") claim
      (after_all plain two_accounts no_users) refl u3_free accounts-IsUsers

-- Ana's name is taken, so the claimed login gets an account under its subject.
claim_account :
    (resolve_oidc_principal plain tenir_groups (codes "u3") claim accounts).1
    ≡ returned (record claim { user_id = codes "u3"; username = codes "sub3" })
unfolding program
claim_account = refl

-- Once the email is verified, the login is Ana's.
verified_account :
    (resolve_oidc_principal plain tenir_groups
      (codes "u3")
      (record claim { email_verified = true })
      accounts).1
    ≡ returned (record claim { user_id = codes "u1"; email_verified = true })
unfolding program
verified_account = refl

bo_logs_in : get_by_username plain (codes "bo ") accounts ≡ lookup (codes "u2") accounts.by_id
unfolding program
bo_logs_in = refl

-- A token for Ana that runs out before the next one is minted, and one that is revoked.
abbrev two_devices : List DeviceCall
two_devices =
    mints 0 (codes "t1") (codes "u1") (codes "pc") 100
    ∷ mints 500 (codes "t2") (codes "u1") (codes "tv") 100
    ∷ []

accounts-Limited : Limited accounts
unfolding program
accounts-Limited = λ user_id. omega arith

after_device_calls-Limited_example : Limited (after_device_calls plain two_devices accounts)
after_device_calls-Limited_example =
    after_device_calls-Limited plain two_devices accounts accounts-Limited

only_t2 :
    device_token_is_live 550
      (codes "u1")
      (codes "t2")
      (after_device_calls plain two_devices accounts)
    ≡ true
unfolding program
only_t2 = refl

t2_revoked :
    (revoke_device_token
      (codes "u1")
      (codes "t2")
      (after_device_calls plain two_devices accounts)).1
    ≡ true
unfolding program
t2_revoked = refl

revoke_is_final_example :
    ((t : DeviceToken) × ((lookup
            (codes "t2")
            (after_device_calls plain two_devices accounts).device_tokens
          ≡ some t)
        × (t.user_id ≡ codes "u1")))
    × (device_token_is_live 550 (codes "u1") (codes "t2") (
          after_device_calls plain
            (mints 520 (codes "t3") (codes "u1") (codes "pad") 100 ∷ [])
            (revoke_device_token
              (codes "u1")
              (codes "t2")
              (after_device_calls plain two_devices accounts)).0)
        ≡ false)
revoke_is_final_example =
    revoke_is_final plain (mints 520 (codes "t3") (codes "u1") (codes "pad") 100 ∷ []) 550
      (codes "u1") (codes "u1") (codes "t2") (after_device_calls plain two_devices accounts)
      t2_revoked (refl, tt)
