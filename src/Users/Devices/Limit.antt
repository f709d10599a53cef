-- ===== src/Users/Devices/Limit.antt =====
-- api/src/api/auth/users.py: how many device tokens a user has, and what a revoked one can do.
use tenir.Prelude.{
  ℕ, ◌+◌, ◌≤◌, ◌≡◌, subst, refl, Bool, false, ◌&&◌, not, List, [], ◌∷◌, length, keep_if, ◌==◌, leb,
  list_key, nat_key, arith, if◌then◌else◌, Bool-cases, Option-cases, inl, inr, list_beq_iff,
}
use tenir.Prelude.Dict.{Dict, lookup, insert, remove}
use tenir.Prelude.Text.{Text}
use tenir.Users.Names.{Unicode}
use tenir.Users.Model.{DeviceToken}
use tenir.Users.Store.{Users, is_some, delete_user, deindex}
use tenir.Users.Devices.{
  max_device_tokens, live_rows, drop_dead, create_device_token, revoke_device_token,
}

-- The rows of a user, live or not.
abbrev pub rows_of_user : Text → Dict Text DeviceToken → ℕ
rows_of_user user_id d = length (keep_if (λ e. e.1.user_id == user_id) d)

rows-keep_if :
    (user_id : Text) (p : Text × DeviceToken → Bool) (d : Dict Text DeviceToken)
    → rows_of_user user_id (keep_if p d) ≤ rows_of_user user_id d
rows-keep_if user_id p [] = omega arith
rows-keep_if user_id p (e ∷ d) = ground (arith, rows-keep_if user_id p d)

rows-drop_dead :
    (now : ℕ) (user_id : Text) (d : Dict Text DeviceToken)
    → rows_of_user user_id (drop_dead now user_id d) ≡ length (live_rows now user_id d)
rows-drop_dead now user_id [] = refl
rows-drop_dead now user_id (e ∷ d) = ground (arith, rows-drop_dead now user_id d)

rows-insert :
    (user_id k : Text) (t : DeviceToken) (d : Dict Text DeviceToken)
    → rows_of_user user_id (insert k t d)
      ≤ rows_of_user user_id d + (if t.user_id == user_id then 1 else 0)
unfolding insert
rows-insert user_id k t [] = ground arith
rows-insert user_id k t (e ∷ d) = ground (arith, rows-insert user_id k t d)

rows-remove :
    (user_id k : Text) (d : Dict Text DeviceToken)
    → rows_of_user user_id (remove k d) ≤ rows_of_user user_id d
unfolding remove
rows-remove user_id k [] = omega arith
rows-remove user_id k (e ∷ d) = ground (arith, rows-remove user_id k d)

unfoldable pub Limited : Users → Type 0
Limited s = (user_id : Text) → rows_of_user user_id s.device_tokens ≤ max_device_tokens

minted :
    (now : ℕ) (new_id user_id v name : Text) (ttl : ℕ) (d : Dict Text DeviceToken)
    → leb max_device_tokens (length (live_rows now user_id d)) ≡ false
    → rows_of_user v d ≤ max_device_tokens
    → rows_of_user v (
        insert new_id
          (record {
            token_id = new_id;
            user_id = user_id;
            name = name;
            created_at = now;
            expires_at = now + ttl;
          })
          (drop_dead now user_id d))
      ≤ max_device_tokens
minted now new_id user_id v name ttl d room h =
    let t : DeviceToken = record {
      token_id = new_id;
      user_id = user_id;
      name = name;
      created_at = now;
      expires_at = now + ttl;
    } in
    let more = rows-insert v new_id t (drop_dead now user_id d) in
    let fewer = rows-keep_if v (λ e. not (e.1.user_id == user_id && leb e.1.expires_at now)) d in
    let exact = rows-drop_dead now user_id d in
    elim (Bool-cases (user_id == v)) [
      | inl same ↦
          let all_live =
            subst (λ x. rows_of_user x (drop_dead now user_id d) ≡ length (live_rows now user_id d))
              ((list_beq_iff user_id v).0 same) exact in
          ground (arith, more, all_live, room)
      | inr other ↦ ground (arith, more, fewer, h, other)
    ]

create_device_token-Limited :
    (now : ℕ) (new_id user_id name : Text) (ttl : ℕ) (s : Users)
    → Limited s
    → Limited (create_device_token now new_id user_id name ttl s).0
unfolding create_device_token Limited
create_device_token-Limited now new_id user_id name ttl s h = λ v.
    let d = s.device_tokens in
    let fewer = rows-keep_if v (λ e. not (e.1.user_id == user_id && leb e.1.expires_at now)) d in
    elim (Bool-cases (not (is_some (lookup user_id s.by_id)))) [
      | inl missing ↦ rw (missing, create_device_token) (h v)
      | inr there ↦
          rw (there, create_device_token)
            (elim (Bool-cases (leb max_device_tokens (length (live_rows now user_id d)))) [
              | inl full ↦ rw full (omega (arith, fewer, h v))
              | inr room ↦ rw room (minted now new_id user_id v name ttl d room (h v))
            ])
    ]

-- A call of one of the methods that write device tokens.
pub data DeviceCall : Type 0 where
  mints : (now : ℕ) → (new_id user_id name : Text) → ℕ → DeviceCall
  revokes : (user_id token_id : Text) → DeviceCall
  removes : Text → DeviceCall

module _ (unicode : Unicode) where
  unfoldable pub after_device_calls : List DeviceCall → Users → Users
  after_device_calls [] s = s
  after_device_calls (mints now new_id user_id name ttl ∷ cs) s =
      after_device_calls cs (create_device_token now new_id user_id name ttl s).0
  after_device_calls (revokes user_id token_id ∷ cs) s =
      after_device_calls cs (revoke_device_token user_id token_id s).0
  after_device_calls (removes user_id ∷ cs) s =
      after_device_calls cs (delete_user unicode user_id s).0

  revoke-Limited :
      (user_id token_id : Text) (s : Users)
      → Limited s
      → Limited (revoke_device_token user_id token_id s).0
  unfolding revoke_device_token Limited
  revoke-Limited user_id token_id s h =
      λ v. ground (arith, h v, rows-remove v token_id s.device_tokens)

  delete_user-Limited :
      (user_id : Text) (s : Users) → Limited s → Limited (delete_user unicode user_id s).0
  unfolding delete_user deindex Limited
  delete_user-Limited user_id s h = λ v.
      let fewer = rows-keep_if v (λ e. not (e.1.user_id == user_id)) s.device_tokens in
      elim (Option-cases (lookup user_id s.by_id)) [
        | inl missing ↦ rw (missing, delete_user) (h v)
        | inr (user, e) ↦ rw (e, delete_user) (omega (arith, fewer, h v))
      ]

  -- Whatever the clock shows and in any order of calls, no user has more than twenty rows, live,
  -- revoked or expired.
  pub after_device_calls-Limited :
      (cs : List DeviceCall) (s : Users) → Limited s → Limited (after_device_calls cs s)
  unfolding after_device_calls
  after_device_calls-Limited [] s h = h
  after_device_calls-Limited (mints now new_id user_id name ttl ∷ cs) s h =
      after_device_calls-Limited cs _ (create_device_token-Limited now new_id user_id name ttl s h)
  after_device_calls-Limited (revokes user_id token_id ∷ cs) s h =
      after_device_calls-Limited cs _ (revoke-Limited user_id token_id s h)
  after_device_calls-Limited (removes user_id ∷ cs) s h =
      after_device_calls-Limited cs _ (delete_user-Limited user_id s h)
