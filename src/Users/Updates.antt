-- ===== src/Users/Updates.antt =====
-- api/src/api/auth/users.py: the methods that change a row keep the indexes.
use tenir.Prelude.{
  ◌≡◌, inl, inr, refl, sym, subst, Bool, false, not, ◌&&◌, ◌||◌, Option, none, some, arith, ◌==◌,
  nat_key, list_key, option_key, option_beq_iff, Bool-cases, Option-cases, beq_refl,
}
use tenir.Prelude.Dict.{lookup}
use tenir.Prelude.Text.{Text}
use tenir.Users.Names.{Unicode, renamed_username, norm}
use tenir.Users.Model.{Role}
use tenir.Users.Store.{Users, truthy, taken, or_else, name_taken, update_credentials, update_oidc}
use tenir.Users.Invariant.{IsUsers, sub_key, email_key, put-IsUsers}

or-false : (a b : Bool) → (a || b) ≡ false → (a ≡ false) × (b ≡ false)
or-false a b e = ground arith

-- A guard on the linked sub is one on its key in the index.
sub-guard :
    (a b : Option Text) (x : Bool)
    → (not (a == b) && x) ≡ false
    → (not (truthy a == truthy b) && x) ≡ false
sub-guard a b x e = elim (Bool-cases (a == b)) [
  | inl same ↦
      subst (λ c. (not (truthy a == truthy c) && x) ≡ false) ((option_beq_iff a b).0 same)
        (rw (beq_refl (truthy a)) refl)
  | inr other ↦ ground (arith, e, other)
]

module _ (unicode : Unicode) where
  pub update_oidc-IsUsers :
      (user_id : Text) (oidc_sub username : Option Text) (role : Option Role) (s : Users)
      → IsUsers unicode s
      → IsUsers unicode (update_oidc unicode user_id oidc_sub username role s).0
  unfolding update_oidc
  update_oidc-IsUsers user_id oidc_sub username role s h =
      elim (Option-cases (lookup user_id s.by_id)) [
        | inl missing ↦ rw (missing, update_oidc) h
        | inr (user, e) ↦
            rw (e, update_oidc)
              (elim (Option-cases (renamed_username unicode user.username username)) [
                | inl refused ↦ rw refused h
                | inr (name, n) ↦
                    let same = h.ids user_id user e in
                    let new_sub : Option Text = elim oidc_sub [
                      | none ↦ user.oidc_sub
                      | some o ↦ some o
                    ] in
                    let busy : Bool =
                      name_taken unicode user name s
                      || (not (new_sub == user.oidc_sub)
                          && taken user_id (truthy new_sub) s.by_oidc_sub) in
                    rw n (elim (Bool-cases busy) [
                      | inl clash ↦ rw clash h
                      | inr free ↦
                          (let (name_ok, sub_ok) = or-false _ _ free in
                            rw free (
                              put-IsUsers unicode user
                                (record user {
                                  username = name;
                                  role = or_else role user.role;
                                  oidc_sub = new_sub;
                                })
                                s refl (subst (λ i. lookup i s.by_id ≡ some user) (sym same) e)
                                name_ok
                                (sub-guard new_sub user.oidc_sub _ (
                                  subst
                                    (λ i.
                                      (not (new_sub == user.oidc_sub)
                                        && taken i (truthy new_sub) s.by_oidc_sub)
                                      ≡ false)
                                    (sym same) sub_ok))
                                (rw (beq_refl (email_key unicode user)) refl) h))
                    ])
              ])
      ]

  pub update_credentials-IsUsers :
      (user_id : Text) (username hash household email : Option Text) (s : Users)
      → IsUsers unicode s
      → IsUsers unicode (update_credentials unicode user_id username hash household email s).0
  unfolding update_credentials
  update_credentials-IsUsers user_id username hash household email s h =
      elim (Option-cases (lookup user_id s.by_id)) [
        | inl missing ↦ rw (missing, update_credentials) h
        | inr (user, e) ↦
            rw (e, update_credentials)
              (elim (Option-cases (renamed_username unicode user.username username)) [
                | inl refused ↦ rw refused h
                | inr (name, n) ↦
                    let same = h.ids user_id user e in
                    let new_email : Option Text = elim email [
                      | none ↦ user.email
                      | some m ↦ some m
                    ] in
                    let busy : Bool =
                      name_taken unicode user name s
                      || (not (norm unicode new_email == norm unicode user.email)
                          && taken user_id (norm unicode new_email) s.by_email) in
                    rw n (elim (Bool-cases busy) [
                      | inl clash ↦ rw clash h
                      | inr free ↦
                          (let (name_ok, email_ok) = or-false _ _ free in
                            rw free (
                              put-IsUsers unicode user
                                (record user {
                                  username = name;
                                  household = or_else household user.household;
                                  password_hash = elim hash [
                                    | none ↦ user.password_hash
                                    | some p ↦ some p
                                  ];
                                  email = new_email;
                                })
                                s refl (subst (λ i. lookup i s.by_id ≡ some user) (sym same) e)
                                name_ok (rw (beq_refl (sub_key unicode user)) refl)
                                (subst
                                  (λ i.
                                    (not (norm unicode new_email == norm unicode user.email)
                                      && taken i (norm unicode new_email) s.by_email)
                                    ≡ false)
                                  (sym same) email_ok)
                                h))
                    ])
              ])
      ]
