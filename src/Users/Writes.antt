-- ===== src/Users/Writes.antt =====
-- api/src/api/auth/users.py: the methods that add or take out a row keep the indexes.
use tenir.Prelude.{
  ◌≡◌, inl, inr, refl, sym, ap, ◌∙◌, subst, Bool, false, ◌||◌, Option, none, some, [], ◌∷◌, arith,
  nat_key, list_key, option_key, Bool-cases, Option-cases,
}
use tenir.Prelude.Dict.{lookup, remove, lookup-remove}
use tenir.Prelude.Strip.{strip_twice}
use tenir.Prelude.Text.{Text, strip}
use tenir.Users.Names.{Unicode, new_username, norm, username_key, normalize_username}
use tenir.Users.Model.{User, Role}
use tenir.Users.Store.{
  Users, is_some, truthy, leave, find, deindex, create, create_oidc, delete_user,
}
use tenir.Users.Indexes.{Indexed, Indexed-remove}
use tenir.Users.Invariant.{IsUsers, name_of, sub_key, email_key, index-IsUsers}

both-none : (a b : Option User) → (is_some a || is_some b) ≡ false → (a ≡ none) × (b ≡ none)
both-none a b e = ground arith

all-none :
    (a b c : Option User)
    → (is_some a || (is_some b || is_some c)) ≡ false
    → (a ≡ none) × (b ≡ none) × (c ≡ none)
all-none a b c e = ground arith

sub-free :
    (oidc_sub : Text) (s : Users)
    → lookup oidc_sub s.by_oidc_sub ≡ none
    → find (truthy (some oidc_sub)) s.by_oidc_sub ≡ none
unfolding find
sub-free [] s e = refl
sub-free (c ∷ cs) s e = e

module _ (unicode : Unicode) where
  new_username-strip :
      (username name : Text) → new_username unicode username ≡ some name → strip name ≡ name
  unfolding new_username normalize_username
  new_username-strip username name e = grind (arith, strip_twice (unicode.nfkc username))

  -- A name that the guard of a creation lets pass is free under its key in the index.
  name-free :
      (username name : Text) (new : User) (s : Users)
      → new_username unicode username ≡ some name
      → new.username ≡ name
      → lookup (unicode.lower name) s.by_username ≡ none
      → find (name_of unicode new) s.by_username ≡ none
  unfolding find username_key
  name-free username name new s e same free =
      ap (λ n. lookup (unicode.lower (strip n)) s.by_username) same
      ∙ (ap (λ n. lookup (unicode.lower n) s.by_username) (new_username-strip username name e)
          ∙ free)

  pub create-IsUsers :
      (new_id username hash household : Text) (role : Role) (is_env_admin : Bool)
      (email : Option Text) (s : Users)
      → lookup new_id s.by_id ≡ none
      → IsUsers unicode s
      → IsUsers unicode (create unicode new_id username hash household role is_env_admin email s).0
  unfolding create find
  create-IsUsers new_id username hash household role is_env_admin email s fresh h =
      elim (Option-cases (new_username unicode username)) [
        | inl refused ↦ rw (refused, create) h
        | inr (name, e) ↦
            let busy : Bool =
              is_some (lookup (unicode.lower name) s.by_username)
              || is_some (find (norm unicode email) s.by_email) in
            let user : User = record {
              user_id = new_id;
              username = name;
              household = household;
              role = role;
              password_hash = some hash;
              oidc_sub = none;
              email = email;
            } in
            rw (e, create)
              (elim (Bool-cases busy) [
                | inl clash ↦ rw clash h
                | inr free ↦
                    let (name_ok, email_ok) = both-none _ _ free in
                    let i =
                      index-IsUsers unicode user s fresh
                        (name-free username name user s e refl name_ok) refl email_ok h in
                    rw free
                      (record { ids = i.ids; names = i.names; subs = i.subs; emails = i.emails })
              ])
      ]

  pub create_oidc-IsUsers :
      (new_id oidc_sub : Text) (email : Option Text) (username household : Text) (role : Role)
      (s : Users)
      → lookup new_id s.by_id ≡ none
      → IsUsers unicode s
      → IsUsers unicode (create_oidc unicode new_id oidc_sub email username household role s).0
  unfolding create_oidc
  create_oidc-IsUsers new_id oidc_sub email username household role s fresh h =
      elim (Option-cases (new_username unicode username)) [
        | inl refused ↦ rw (refused, create_oidc) h
        | inr (name, e) ↦
            let busy : Bool =
              is_some (lookup (unicode.lower name) s.by_username)
              || (is_some (lookup oidc_sub s.by_oidc_sub)
                  || is_some (find (norm unicode email) s.by_email)) in
            let user : User = record {
              user_id = new_id;
              username = name;
              household = household;
              role = role;
              password_hash = none;
              oidc_sub = some oidc_sub;
              email = email;
            } in
            rw (e, create_oidc)
              (elim (Bool-cases busy) [
                | inl clash ↦ rw clash h
                | inr free ↦
                    let (name_ok, sub_ok, email_ok) = all-none _ _ _ free in
                    rw free (
                      index-IsUsers unicode user s fresh
                        (name-free username name user s e refl name_ok) (sub-free oidc_sub s sub_ok)
                        email_ok h)
              ])
      ]

  pub delete_user-IsUsers :
      (user_id : Text) (s : Users)
      → IsUsers unicode s
      → IsUsers unicode (delete_user unicode user_id s).0
  unfolding delete_user deindex leave
  delete_user-IsUsers user_id s h = elim (Option-cases (lookup user_id s.by_id)) [
    | inl missing ↦ rw (missing, delete_user) h
    | inr (user, e) ↦
        let same = h.ids user_id user e in
        let stored : lookup user.user_id s.by_id ≡ some user =
          subst (λ i. lookup i s.by_id ≡ some user) (sym same) e in
        rw (e, delete_user)
          (record {
            ids = λ k u at. grind (arith, h.ids k u, lookup-remove user_id k s.by_id);
            names =
                subst
                  (λ i.
                    Indexed (name_of unicode) (remove i s.by_id)
                      (leave (name_of unicode user) s.by_username))
                  same (Indexed-remove (name_of unicode) s.by_id s.by_username user stored h.names);
            subs =
                subst
                  (λ i.
                    Indexed (sub_key unicode) (remove i s.by_id)
                      (leave (sub_key unicode user) s.by_oidc_sub))
                  same (Indexed-remove (sub_key unicode) s.by_id s.by_oidc_sub user stored h.subs);
            emails =
                subst
                  (λ i.
                    Indexed (email_key unicode) (remove i s.by_id)
                      (leave (email_key unicode user) s.by_email))
                  same (Indexed-remove (email_key unicode) s.by_id s.by_email user stored h.emails);
          })
  ]
