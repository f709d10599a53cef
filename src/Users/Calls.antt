-- ===== src/Users/Calls.antt =====
-- api/src/api/auth/users.py: sequences of calls that change the accounts.
use tenir.Prelude.{◌≡◌, ◌⊎◌, Bool, Option, none, some, List, [], ◌∷◌, arith, nat_key, list_key}
use tenir.Prelude.Dict.{lookup}
use tenir.Prelude.Text.{Text}
use tenir.Users.Names.{Unicode, norm, username_key}
use tenir.Users.Model.{User, Role}
use tenir.Users.Indexes.{Indexed}
use tenir.Users.Store.{
  Users, no_users, truthy, create, create_oidc, delete_user, update_credentials, update_oidc,
}
use tenir.Users.Invariant.{IsUsers}
use tenir.Users.Writes.{create-IsUsers, create_oidc-IsUsers, delete_user-IsUsers}
use tenir.Users.Updates.{update_credentials-IsUsers, update_oidc-IsUsers}

-- `new_id` is what `uuid.uuid4` gave.
pub data Call : Type 0 where
  creates : (new_id username hash household : Text) → Role → Bool → Option Text → Call
  creates_oidc : (new_id oidc_sub : Text) → Option Text → (username household : Text) → Role → Call
  deletes : Text → Call
  updates : Text → (username hash household email : Option Text) → Call
  links : Text → (oidc_sub username : Option Text) → Option Role → Call

module _ (unicode : Unicode) where
  unfoldable pub after : Call → Users → Users
  after (creates new_id username hash household role is_env_admin email) s =
      (create unicode new_id username hash household role is_env_admin email s).0
  after (creates_oidc new_id oidc_sub email username household role) s =
      (create_oidc unicode new_id oidc_sub email username household role s).0
  after (deletes user_id) s = (delete_user unicode user_id s).0
  after (updates user_id username hash household email) s =
      (update_credentials unicode user_id username hash household email s).0
  after (links user_id oidc_sub username role) s =
      (update_oidc unicode user_id oidc_sub username role s).0

  unfoldable pub after_all : List Call → Users → Users
  after_all [] s = s
  after_all (c ∷ cs) s = after_all cs (after c s)

  -- `uuid4` never gives the id of a stored row.
  unfoldable pub Fresh : Call → Users → Type 0
  Fresh (creates new_id username hash household role is_env_admin email) s =
      lookup new_id s.by_id ≡ none
  Fresh (creates_oidc new_id oidc_sub email username household role) s =
      lookup new_id s.by_id ≡ none
  Fresh _ s = Unit

  unfoldable pub AllFresh : List Call → Users → Type 0
  AllFresh [] s = Unit
  AllFresh (c ∷ cs) s = Fresh c s × AllFresh cs (after c s)

  after-IsUsers :
      (c : Call) (s : Users) → Fresh c s → IsUsers unicode s → IsUsers unicode (after c s)
  unfolding after Fresh
  after-IsUsers (creates new_id username hash household role is_env_admin email) s f h =
      create-IsUsers unicode new_id username hash household role is_env_admin email s f h
  after-IsUsers (creates_oidc new_id oidc_sub email username household role) s f h =
      create_oidc-IsUsers unicode new_id oidc_sub email username household role s f h
  after-IsUsers (deletes user_id) s f h = delete_user-IsUsers unicode user_id s h
  after-IsUsers (updates user_id username hash household email) s f h =
      update_credentials-IsUsers unicode user_id username hash household email s h
  after-IsUsers (links user_id oidc_sub username role) s f h =
      update_oidc-IsUsers unicode user_id oidc_sub username role s h

  -- If new ids are fresh, every sequence of calls keeps each row filed under its id, and the indexes
  -- by username, OIDC subject and email exactly those of the stored rows.
  pub after_all-IsUsers :
      (cs : List Call) (s : Users)
      → AllFresh cs s
      → IsUsers unicode s
      → IsUsers unicode (after_all cs s)
  unfolding after_all AllFresh
  after_all-IsUsers [] s f h = h
  after_all-IsUsers (c ∷ cs) s (f, fs) h =
      after_all-IsUsers cs (after c s) fs (after-IsUsers c s f h)

  pub no_users-IsUsers : IsUsers unicode no_users
  unfolding lookup Indexed
  no_users-IsUsers = record {
    ids = λ k u e. cc;
    names = λ k u. ((λ e. cc), (λ e. cc));
    subs = λ k u. ((λ e. cc), (λ e. cc));
    emails = λ k u. ((λ e. cc), (λ e. cc));
  }

  -- However the accounts came about from an empty store, with fresh ids: two stored rows whose
  -- usernames, subjects or emails have the same key are the same row.
  after_all_unique :
      (cs : List Call) (i j k : Text) (u v : User)
      → AllFresh cs no_users
      → lookup i (after_all cs no_users).by_id ≡ some u
      → lookup j (after_all cs no_users).by_id ≡ some v
      → ((username_key unicode u.username ≡ k) × (username_key unicode v.username ≡ k))
        ⊎ (((truthy u.oidc_sub ≡ some k) × (truthy v.oidc_sub ≡ some k))
            ⊎ ((norm unicode u.email ≡ some k) × (norm unicode v.email ≡ some k)))
      → i ≡ j
  unfolding Indexed
  after_all_unique cs i j k u v f at_i at_j same =
      let h = after_all-IsUsers cs no_users f no_users-IsUsers in
      grind (
        arith,
        h.ids i u,
        h.ids j v,
        h.names k u,
        h.names k v,
        h.subs k u,
        h.subs k v,
        h.emails k u,
        h.emails k v,
      )
