-- ===== src/Users/Devices/Revoked.antt =====
-- api/src/api/auth/users.py: what a revoked device token can do from then on.
use tenir.Prelude.{
  ℕ, ◌≡◌, inl, inr, refl, ◌∙◌, Bool, true, false, ◌&&◌, not, Option, none, some, List, [], ◌∷◌,
  keep_if, ◌==◌, leb, length, list_key, nat_key, All, arith, Bool-cases, Option-cases, list_beq_iff,
  beq_refl,
}
use tenir.Prelude.Dict.{Dict, lookup, lookup-insert, lookup-remove}
use tenir.Prelude.Text.{Text}
use tenir.Users.Names.{Unicode}
use tenir.Users.Model.{DeviceToken}
use tenir.Users.Store.{Users, is_some, delete_user, deindex}
use tenir.Users.Devices.{
  max_device_tokens, live_rows, drop_dead, create_device_token, device_token_is_live,
  revoke_device_token,
}
use tenir.Users.Devices.Limit.{DeviceCall, mints, revokes, removes, after_device_calls}

-- The call does not mint a token with that id.
abbrev pub MintsOther : Text → DeviceCall → Type 0
MintsOther token_id (mints now new_id user_id name ttl) = (new_id == token_id) ≡ false
MintsOther token_id c = Unit {0}

-- No row has that id.
abbrev IsGone : Text → Users → Type 0
IsGone token_id s = lookup token_id s.device_tokens ≡ none

lookup-keep_if :
    (k : Text) (p : Text × DeviceToken → Bool) (d : Dict Text DeviceToken)
    → lookup k d ≡ none
    → lookup k (keep_if p d) ≡ none
unfolding lookup
lookup-keep_if k p [] h = h
lookup-keep_if k p (e ∷ d) h = ground (arith, h, lookup-keep_if k p d)

create_device_token-IsGone :
    (token_id : Text) (now : ℕ) (new_id user_id name : Text) (ttl : ℕ) (s : Users)
    → (new_id == token_id) ≡ false
    → IsGone token_id s
    → IsGone token_id (create_device_token now new_id user_id name ttl s).0
unfolding create_device_token
create_device_token-IsGone token_id now new_id user_id name ttl s other h =
    let kept =
      lookup-keep_if token_id (λ e. not (e.1.user_id == user_id && leb e.1.expires_at now))
        s.device_tokens h in
    elim (Bool-cases (not (is_some (lookup user_id s.by_id)))) [
      | inl missing ↦ rw (missing, create_device_token) h
      | inr there ↦
          rw (there, create_device_token)
            (elim (Bool-cases
              (leb max_device_tokens (length (live_rows now user_id s.device_tokens)))) [
                | inl full ↦ rw full kept
                | inr room ↦ rw room (
                    lookup-insert new_id token_id _ (drop_dead now user_id s.device_tokens)
                    ∙ rw (other) kept)
              ])
    ]

revoke-IsGone :
    (token_id user_id other : Text) (s : Users)
    → IsGone token_id s
    → IsGone token_id (revoke_device_token user_id other s).0
unfolding revoke_device_token
revoke-IsGone token_id user_id other s h =
    ground (arith, h, lookup-remove other token_id s.device_tokens)

module _ (unicode : Unicode) where
  delete_user-IsGone :
      (token_id user_id : Text) (s : Users)
      → IsGone token_id s
      → IsGone token_id (delete_user unicode user_id s).0
  unfolding delete_user deindex
  delete_user-IsGone token_id user_id s h =
      let kept = lookup-keep_if token_id (λ e. not (e.1.user_id == user_id)) s.device_tokens h in
      elim (Option-cases (lookup user_id s.by_id)) [
        | inl missing ↦ rw (missing, delete_user) h
        | inr (user, e) ↦ rw (e, delete_user) kept
      ]

  after_device_calls-IsGone :
      (token_id : Text) (cs : List DeviceCall) (s : Users)
      → All (MintsOther token_id) cs
      → IsGone token_id s
      → IsGone token_id (after_device_calls unicode cs s)
  unfolding after_device_calls
  after_device_calls-IsGone token_id [] s others h = h
  after_device_calls-IsGone token_id (mints now new_id user_id name ttl ∷ cs) s others h =
      after_device_calls-IsGone token_id cs _ others.1
        (create_device_token-IsGone token_id now new_id user_id name ttl s others.0 h)
  after_device_calls-IsGone token_id (revokes user_id other ∷ cs) s others h =
      after_device_calls-IsGone token_id cs _ others.1 (revoke-IsGone token_id user_id other s h)
  after_device_calls-IsGone token_id (removes user_id ∷ cs) s others h =
      after_device_calls-IsGone token_id cs _ others.1 (delete_user-IsGone token_id user_id s h)

  revoked_row :
      (user_id token_id : Text) (s : Users) (o : Option DeviceToken)
      → lookup token_id s.device_tokens ≡ o
      → (revoke_device_token user_id token_id s).1 ≡ true
      → ((t : DeviceToken) × ((o ≡ some t) × (t.user_id ≡ user_id)))
        × IsGone token_id (revoke_device_token user_id token_id s).0
  unfolding revoke_device_token
  revoked_row user_id token_id s none e done = absurd (ground (arith, done, e))
  revoked_row user_id token_id s (some t) e done = elim (Bool-cases (t.user_id == user_id)) [
    | inl own ↦ (
      (t, (refl, (list_beq_iff t.user_id user_id).0 own)),
      ground (arith, e, own, lookup-remove token_id token_id s.device_tokens, beq_refl token_id),
    )
    | inr other ↦ absurd (ground (arith, done, e, other))
  ]

  -- A revoke says that it was done only for a token of that user. From then on, whatever calls
  -- follow that mint no token with its id, the token is live for nobody at any time.
  pub revoke_is_final :
      (cs : List DeviceCall) (now : ℕ) (other user_id token_id : Text) (s : Users)
      → (revoke_device_token user_id token_id s).1 ≡ true
      → All (MintsOther token_id) cs
      → ((t : DeviceToken) × ((lookup token_id s.device_tokens ≡ some t) × (t.user_id ≡ user_id)))
        × (device_token_is_live now other token_id
              (after_device_calls unicode cs (revoke_device_token user_id token_id s).0)
            ≡ false)
  unfolding device_token_is_live
  revoke_is_final cs now other user_id token_id s done others =
      let (row, gone) = revoked_row user_id token_id s _ refl done in
      (
        row,
        rw
            (
              after_device_calls-IsGone token_id cs (revoke_device_token user_id token_id s).0
                  others gone,
              device_token_is_live,
            )
            refl,
      )
