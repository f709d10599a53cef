-- ===== src/Users/Devices.antt =====
-- api/src/api/auth/users.py: the device tokens of `InMemoryUserStore`. The clock and the new id are
-- arguments.
pub mod Limit
pub mod Revoked
use tenir.Prelude.{
  ℕ, ◌+◌, ◌≤◌, ◌<◌, ◌≡◌, Bool, true, false, ◌&&◌, not, Option, none, some, List, [], ◌∷◌, map,
  length, keep_if, ◌==◌, ltb, leb, list_key, nat_key, if◌then◌else◌,
}
use tenir.Prelude.Dict.{Dict, lookup, insert, remove}
use tenir.Prelude.Text.{Text}
use tenir.Users.Model.{DeviceToken, no_such_user, too_many_devices, Outcome, raised, returned}
use tenir.Users.Store.{Users, is_some}

abbrev pub max_device_tokens : ℕ
max_device_tokens = 20

abbrev pub is_live : ℕ → Text → DeviceToken → Bool
is_live now user_id t = t.user_id == user_id && ltb now t.expires_at

-- The live tokens of a user.
abbrev pub live_rows : ℕ → Text → Dict Text DeviceToken → Dict Text DeviceToken
live_rows now user_id d = keep_if (λ e. is_live now user_id e.1) d

-- A mint first drops the rows of the user that have expired.
abbrev pub drop_dead : ℕ → Text → Dict Text DeviceToken → Dict Text DeviceToken
drop_dead now user_id d = keep_if (λ e. not (e.1.user_id == user_id && leb e.1.expires_at now)) d

unfoldable pub create_device_token :
    ℕ → Text → Text → Text → ℕ → Users → Users × Outcome DeviceToken
create_device_token now new_id user_id name ttl s =
    if not (is_some (lookup user_id s.by_id))
    then (s, raised no_such_user)
    else (let kept = drop_dead now user_id s.device_tokens in
        let token : DeviceToken = record {
          token_id = new_id;
          user_id = user_id;
          name = name;
          created_at = now;
          expires_at = now + ttl;
        } in
        if leb max_device_tokens (length (live_rows now user_id s.device_tokens))
        then (record s { device_tokens = kept }, raised too_many_devices)
        else (record s { device_tokens = insert new_id token kept }, returned token))

unfoldable pub device_token_is_live : ℕ → Text → Text → Users → Bool
device_token_is_live now user_id token_id s = elim (lookup token_id s.device_tokens) [
  | none ↦ false
  | some token ↦ is_live now user_id token
]

unfoldable pub revoke_device_token : Text → Text → Users → Users × Bool
revoke_device_token user_id token_id s = elim (lookup token_id s.device_tokens) [
  | none ↦ (s, false)
  | some token ↦
      if token.user_id == user_id
      then (record s { device_tokens = remove token_id s.device_tokens }, true)
      else (s, false)
]
