-- ===== src/Users/Invariant.antt =====
-- api/src/api/auth/users.py: the indexes of `InMemoryUserStore` against the stored rows.
use tenir.Prelude.{
  ◌≡◌, false, not, ◌&&◌, Option, none, some, arith, ◌==◌, nat_key, list_key, option_key,
  list_beq_iff,
}
use tenir.Prelude.Dict.{Dict, lookup, insert, lookup-insert}
use tenir.Prelude.Text.{Text}
use tenir.Users.Names.{Unicode, norm, username_key}
use tenir.Users.Model.{User}
use tenir.Users.Store.{Users, truthy, enter, leave, find, taken, index, deindex, put, name_taken}
use tenir.Users.Indexes.{Indexed, Indexed-add, Indexed-replace, guard-free}

module _ (unicode : Unicode) where
  abbrev pub name_of : User → Option Text
  name_of u = some (username_key unicode u.username)

  abbrev pub sub_key : User → Option Text
  sub_key u = truthy u.oidc_sub

  abbrev pub email_key : User → Option Text
  email_key u = norm unicode u.email

  -- Each row is filed under its id, and each index holds exactly the rows that have its key.
  pub record IsUsers (s : Users) : Type 0 where
    pub ids : (k : Text) (u : User) → lookup k s.by_id ≡ some u → u.user_id ≡ k
    pub names : Indexed name_of s.by_id s.by_username
    pub subs : Indexed sub_key s.by_id s.by_oidc_sub
    pub emails : Indexed email_key s.by_id s.by_email

  stored_ids :
      (new : User) (d : Dict Text User)
      → ((k : Text) (u : User) → lookup k d ≡ some u → u.user_id ≡ k)
      → (k : Text) (u : User) → lookup k (insert new.user_id new d) ≡ some u
      → u.user_id ≡ k
  stored_ids new d h k u e =
      grind (arith, h k u, lookup-insert new.user_id k new d, list_beq_iff new.user_id k)

  name_free :
      (old new : User) (s : Users)
      → lookup old.user_id s.by_id ≡ some old
      → name_taken unicode old new.username s ≡ false
      → Indexed name_of s.by_id s.by_username
      → (k : Text) (u : User) → name_of new ≡ some k
      → lookup k s.by_username ≡ some u
      → u.user_id ≡ old.user_id
  unfolding name_taken Indexed
  name_free old new s stored free h k u has at = grind (
    arith,
    h k old,
    list_beq_iff (username_key unicode new.username) (username_key unicode old.username),
  )

  pub index-IsUsers :
      (new : User) (s : Users)
      → lookup new.user_id s.by_id ≡ none
      → find (name_of new) s.by_username ≡ none
      → find (sub_key new) s.by_oidc_sub ≡ none
      → find (email_key new) s.by_email ≡ none
      → IsUsers s
      → IsUsers (index unicode new s)
  unfolding index enter
  index-IsUsers new s fresh name sub email h = record {
    ids = λ k u e. stored_ids new s.by_id h.ids k u e;
    names = Indexed-add name_of s.by_id s.by_username new fresh name h.names;
    subs = Indexed-add sub_key s.by_id s.by_oidc_sub new fresh sub h.subs;
    emails = Indexed-add email_key s.by_id s.by_email new fresh email h.emails;
  }

  pub put-IsUsers :
      (old new : User) (s : Users)
      → new.user_id ≡ old.user_id
      → lookup old.user_id s.by_id ≡ some old
      → name_taken unicode old new.username s ≡ false
      → (not (sub_key new == sub_key old) && taken old.user_id (sub_key new) s.by_oidc_sub) ≡ false
      → (not (email_key new == email_key old) && taken old.user_id (email_key new) s.by_email)
        ≡ false
      → IsUsers s
      → IsUsers (put unicode old new s)
  unfolding put index deindex enter leave
  put-IsUsers old new s same stored name sub email h = record {
    ids = λ k u e. stored_ids new s.by_id h.ids k u e;
    names =
        Indexed-replace name_of s.by_id s.by_username old new same stored
          (λ k u has at. name_free old new s stored name h.names k u has at) h.names;
    subs =
        Indexed-replace sub_key s.by_id s.by_oidc_sub old new same stored
          (guard-free sub_key s.by_id s.by_oidc_sub old new stored sub h.subs) h.subs;
    emails =
        Indexed-replace email_key s.by_id s.by_email old new same stored
          (guard-free email_key s.by_id s.by_email old new stored email h.emails) h.emails;
  }
