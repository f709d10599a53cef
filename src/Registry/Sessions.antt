-- ===== src/Registry/Sessions.antt =====
-- api/src/api/registry.py: the live sessions by their id.
use tenir.Prelude.{
  ℕ, ◌≡◌, ◌≢◌, ap, ◌∙◌, beq_refl, Bool, false, Option, none, some, List, map, length, ◌==◌, nat_key,
  list_key, option_key, if◌then◌else◌, arith,
}
use tenir.Prelude.Text.{Text}
use tenir.Prelude.Dict.{Dict, lookup, insert, remove, lookup-insert}

-- A session by its id and its identity as an object.
pub record LiveSession : Type 0 where
  pub session_id : Text
  pub identity : ℕ

abbrev pub Active : Type 0
Active = Dict Text LiveSession

abbrev pub is_same : LiveSession → Option LiveSession → Bool
is_same s none = false
is_same s (some t) = t.identity == s.identity

unfoldable pub register : LiveSession → Active → Active
register s sessions = insert s.session_id s sessions

unfoldable pub unregister : LiveSession → Active → Active
unregister s sessions =
    if is_same s (lookup s.session_id sessions) then remove s.session_id sessions else sessions

unfoldable pub live : Text → Active → Option LiveSession
live id sessions = lookup id sessions

unfoldable pub session_count : Active → ℕ
session_count sessions = length sessions

unfoldable pub active_sessions : Active → List LiveSession
active_sessions = map (λ x. x.1)

-- A session that shares its id with one that was registered later does not evict it.
unregister_stale :
    (old new : LiveSession) (sessions : Active)
    → old.session_id ≡ new.session_id
    → old.identity ≢ new.identity
    → live new.session_id (unregister old (register new sessions)) ≡ some new
unfolding live unregister register
unregister_stale old new sessions e apart =
    let held = insert new.session_id new sessions in
    let without = remove old.session_id held in
    let there : lookup new.session_id held ≡ some new =
      ground (
        arith,
        lookup-insert new.session_id new.session_id new sessions,
        beq_refl new.session_id,
      ) in
    let found : lookup old.session_id held ≡ some new = ap (λ id. lookup id held) e ∙ there in
    let other : is_same old (some new) ≡ false = ground (arith, apart) in
    ap (λ o. lookup new.session_id (if is_same old o then without else held)) found
    ∙ ap (λ b. lookup new.session_id (if b then without else held)) other
    ∙ there
