-- ===== src/Users/Indexes.antt =====
-- api/src/api/auth/users.py: an index by a key that a row may not have, against the rows by id.
use tenir.Prelude.{
  ◌≡◌, ◌↔◌, refl, false, not, ◌&&◌, Option, none, some, arith, ◌==◌, if◌then◌else◌, nat_key,
  list_key, option_key, list_beq_iff, option_beq_iff,
}
use tenir.Prelude.Dict.{Dict, lookup, insert, remove, lookup-insert, lookup-remove}
use tenir.Prelude.Text.{Text}
use tenir.Users.Model.{User}
use tenir.Users.Store.{enter, leave, find, taken}

lookup-enter :
    (o : Option Text) (j : Text) (u : User) (d : Dict Text User)
    → lookup j (enter o u d) ≡ (if o == some j then some u else lookup j d)
unfolding enter
lookup-enter none j u d = refl
lookup-enter (some k) j u d = lookup-insert k j u d

lookup-leave :
    (o : Option Text) (j : Text) (d : Dict Text User)
    → lookup j (leave o d) ≡ (if o == some j then none else lookup j d)
unfolding leave
lookup-leave none j d = refl
lookup-leave (some k) j d = lookup-remove k j d

taken-find :
    (user_id : Text) (o : Option Text) (k : Text) (u : User) (d : Dict Text User)
    → o ≡ some k
    → lookup k d ≡ some u
    → taken user_id o d ≡ not (u.user_id == user_id)
unfolding taken find
taken-find user_id o k u d e at = ground arith

module _ (key : User → Option Text) where
  -- An entry of the index is a row that is stored by its id and has the key, and so is each such row.
  unfoldable pub Indexed : Dict Text User → Dict Text User → Type 0
  Indexed ids d =
      (k : Text) (u : User)
      → (lookup k d ≡ some u) ↔ ((lookup u.user_id ids ≡ some u) × (key u ≡ some k))

  pub Indexed-add :
      (ids d : Dict Text User) (new : User)
      → lookup new.user_id ids ≡ none
      → find (key new) d ≡ none
      → Indexed ids d
      → Indexed (insert new.user_id new ids) (enter (key new) new d)
  unfolding Indexed find
  Indexed-add ids d new fresh free h = λ k u.
      rw (lookup-enter (key new) k new d, lookup-insert new.user_id u.user_id new ids)
        (grind
          (arith, h k u, option_beq_iff (key new) (some k), list_beq_iff new.user_id u.user_id))

  pub Indexed-remove :
      (ids d : Dict Text User) (old : User)
      → lookup old.user_id ids ≡ some old
      → Indexed ids d
      → Indexed (remove old.user_id ids) (leave (key old) d)
  unfolding Indexed
  Indexed-remove ids d old stored h = λ k u.
      rw (lookup-leave (key old) k d, lookup-remove old.user_id u.user_id ids)
        (grind (
          arith,
          h k u,
          h k old,
          option_beq_iff (key old) (some k),
          list_beq_iff old.user_id u.user_id,
        ))

  pub Indexed-replace :
      (ids d : Dict Text User) (old new : User)
      → new.user_id ≡ old.user_id
      → lookup old.user_id ids ≡ some old
      → ((k : Text) (u : User) → key new ≡ some k → lookup k d ≡ some u → u.user_id ≡ old.user_id)
      → Indexed ids d
      → Indexed (insert new.user_id new ids) (enter (key new) new (leave (key old) d))
  unfolding Indexed
  Indexed-replace ids d old new same stored free h = λ k u.
      rw
        (
          lookup-enter (key new) k new (leave (key old) d),
          lookup-leave (key old) k d,
          lookup-insert new.user_id u.user_id new ids,
        )
        (grind (
          arith,
          h k u,
          h k old,
          free k u,
          option_beq_iff (key old) (some k),
          option_beq_iff (key new) (some k),
          list_beq_iff new.user_id u.user_id,
        ))

  -- The guard of an update: the key is the old one, or no other row has it.
  pub guard-free :
      (ids d : Dict Text User) (old new : User)
      → lookup old.user_id ids ≡ some old
      → (not (key new == key old) && taken old.user_id (key new) d) ≡ false
      → Indexed ids d
      → (k : Text) (u : User) → key new ≡ some k
      → lookup k d ≡ some u
      → u.user_id ≡ old.user_id
  unfolding Indexed
  guard-free ids d old new stored guard h k u has at =
      let named : taken old.user_id (key new) d ≡ not (u.user_id == old.user_id) =
        taken-find old.user_id (key new) k u d has at in
      grind (
        arith,
        h k old,
        named,
        option_beq_iff (key new) (key old),
        list_beq_iff u.user_id old.user_id,
      )
