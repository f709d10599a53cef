-- ===== src/Users/Links.antt =====
-- api/src/api/auth/users.py: what an OIDC login may change in the accounts that are there.
use tenir.Prelude.{
  ◌≡◌, inl, inr, refl, sym, subst, ◌∙◌, Bool, true, not, ◌||◌, ◌&&◌, Option, none, some, arith,
  ◌==◌, list_key, nat_key, option_key, list_beq_iff, Bool-cases, Option-cases,
}
use tenir.Prelude.Dict.{lookup, insert, lookup-insert}
use tenir.Prelude.Text.{Text}
use tenir.Users.Names.{Unicode, norm, new_username, renamed_username}
use tenir.Users.Model.{User, Role}
use tenir.Users.Store.{
  Users, index, deindex, put, create_oidc, update_oidc, truthy, or_else, name_taken, taken, is_some,
  find,
}
use tenir.Users.Invariant.{IsUsers}

-- The same account: who it is and how it is logged in to; its username and role may differ.
pub record SameAccount (u v : User) : Type 0 where
  pub same_id : v.user_id ≡ u.user_id
  pub same_sub : v.oidc_sub ≡ u.oidc_sub
  pub same_email : v.email ≡ u.email
  pub same_household : v.household ≡ u.household
  pub same_password : v.password_hash ≡ u.password_hash

-- Every row of `s` is still there in `t`.
unfoldable pub Keeps : Users → Users → Type 0
Keeps s t =
    (k : Text) (u : User)
    → lookup k s.by_id ≡ some u
    → (v : User) × (lookup k t.by_id ≡ some v) × SameAccount u v

SameAccount-refl : (u : User) → SameAccount u u
SameAccount-refl u = record {
  same_id = refl;
  same_sub = refl;
  same_email = refl;
  same_household = refl;
  same_password = refl;
}

pub Keeps-refl : (s : Users) → Keeps s s
unfolding Keeps
Keeps-refl s = λ k u e. (u, e, SameAccount-refl u)

pub Keeps-trans : (s t r : Users) → Keeps s t → Keeps t r → Keeps s r
unfolding Keeps
Keeps-trans s t r h g =
    λ k u e. let (v, at_v, a) = h k u e in let (w, at_w, b) = g k v at_v in (w, at_w, ground arith)

at_other :
    (new : User) (s : Users)
    → lookup new.user_id s.by_id ≡ none
    → (k : Text) (u : User) → lookup k s.by_id ≡ some u
    → lookup k (insert new.user_id new s.by_id) ≡ some u
at_other new s fresh k u e =
    grind (arith, lookup-insert new.user_id k new s.by_id, list_beq_iff new.user_id k)

same_row :
    (old new : User) (s : Users)
    → lookup old.user_id s.by_id ≡ some old
    → SameAccount old new
    → (k : Text) (u : User) → lookup k s.by_id ≡ some u
    → (new.user_id == k) ≡ true
    → SameAccount u new
same_row old new s stored a k u e here =
    let at : lookup old.user_id s.by_id ≡ some u =
      subst (λ i. lookup i s.by_id ≡ some u) (sym ((list_beq_iff new.user_id k).0 here) ∙ a.same_id)
        e in
    ground arith

module _ (unicode : Unicode) where
  index-Keeps :
      (new : User) (s : Users) → lookup new.user_id s.by_id ≡ none → Keeps s (index unicode new s)
  unfolding index Keeps
  index-Keeps new s fresh = λ k u e. (u, at_other new s fresh k u e, SameAccount-refl u)

  put-Keeps :
      (old new : User) (s : Users)
      → lookup old.user_id s.by_id ≡ some old
      → SameAccount old new
      → Keeps s (put unicode old new s)
  unfolding put index deindex Keeps
  put-Keeps old new s stored a = λ k u e. elim (Bool-cases (new.user_id == k)) [
    | inl here ↦ (
      new,
      rw (lookup-insert new.user_id k new s.by_id, here) refl,
      same_row old new s stored a k u e here,
    )
    | inr other ↦ (u, rw (lookup-insert new.user_id k new s.by_id, other) e, SameAccount-refl u)
  ]

  pub create_oidc-Keeps :
      (new_id oidc_sub : Text) (email : Option Text) (username household : Text) (role : Role)
      (s : Users)
      → lookup new_id s.by_id ≡ none
      → Keeps s (create_oidc unicode new_id oidc_sub email username household role s).0
  unfolding create_oidc
  create_oidc-Keeps new_id oidc_sub email username household role s fresh =
      elim (Option-cases (new_username unicode username)) [
        | inl refused ↦ rw (refused, create_oidc) (Keeps-refl s)
        | inr (name, e) ↦
            let busy : Bool =
              is_some (lookup (unicode.lower name) s.by_username)
              || (is_some (lookup oidc_sub s.by_oidc_sub)
                  || is_some (find (norm unicode email) s.by_email)) in
            rw (e, create_oidc)
              (elim (Bool-cases busy) [
                | inl clash ↦ rw clash (Keeps-refl s)
                | inr free ↦ rw free (index-Keeps _ s fresh)
              ])
      ]

  pub update_oidc-Keeps :
      (user_id : Text) (username : Option Text) (role : Option Role) (s : Users)
      → IsUsers unicode s
      → Keeps s (update_oidc unicode user_id none username role s).0
  unfolding update_oidc
  update_oidc-Keeps user_id username role s h = elim (Option-cases (lookup user_id s.by_id)) [
    | inl missing ↦ rw (missing, update_oidc) (Keeps-refl s)
    | inr (user, e) ↦
        rw (e, update_oidc)
          (elim (Option-cases (renamed_username unicode user.username username)) [
            | inl refused ↦ rw refused (Keeps-refl s)
            | inr (name, n) ↦
                let busy : Bool =
                  name_taken unicode user name s
                  || (not (user.oidc_sub == user.oidc_sub)
                      && taken user_id (truthy user.oidc_sub) s.by_oidc_sub) in
                rw n (elim (Bool-cases busy) [
                  | inl clash ↦ rw clash (Keeps-refl s)
                  | inr free ↦ rw free (
                      put-Keeps user
                        (record user { username = name; role = or_else role user.role }) s
                        (subst (λ i. lookup i s.by_id ≡ some user) (sym (h.ids user_id user e)) e)
                        (record {
                          same_id = refl;
                          same_sub = refl;
                          same_email = refl;
                          same_household = refl;
                          same_password = refl;
                        }))
                ])
          ])
  ]
