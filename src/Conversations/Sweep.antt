-- ===== src/Conversations/Sweep.antt =====
-- api/src/api/persistence/conversations.py: the methods that go through every row of the store, and the
-- search. Times, ids and texts compare as Python compares them.
use tenir.Prelude.{
  ℕ, ◌+◌, Bool, true, false, ◌&&◌, ◌||◌, not, Option, none, some, List, [], ◌∷◌, ◌++◌, map, length,
  any, keep_if, ltb, leb, ◌==◌, nat_key, list_key, option_key, if◌then◌else◌,
}
use tenir.Prelude.Dict.{Dict}
use tenir.Prelude.Sorting.{sort_by}
use tenir.Prelude.Text.{Text, split_words, starts_with, count_from}
use tenir.Conversations.Model.{
  live, ready, mic, screen, DeliveryState, pending, sent, failed, ConversationSummary, Conversation,
  transcript, summary,
}
use tenir.Conversations.Store.{
  Rows, Store, get_or, conversations, change_row, owned, in_org, values, page, newer, list_rows,
}

abbrev pub is_live : Conversation → Bool
is_live c = elim c.status [ live ↦ true | ready ↦ false ]

abbrev pub is_screen : Conversation → Bool
is_screen c = elim c.source [ mic ↦ false | screen ↦ true ]

-- `x or y` on an optional time.
abbrev pub ended_or_started : Conversation → ℕ
ended_or_started c = get_or c.ended_at c.started_at

-- Every row beside its household, in the order of the two loops.
unfoldable pub all_rows : Dict Text Rows → List (Text × Conversation)
all_rows [] = []
all_rows ((household, rows) ∷ d) = map (λ c. (household, c)) (values rows) ++ all_rows d

-- Changes every row in place.
abbrev pub map_values {ℓ κ} : {K : Type ℓ} {V : Type κ} → (V → V) → Dict K V → Dict K V
map_values f = map (λ e. (e.0, f e.1))

unfoldable pub map_rows : (Conversation → Conversation) → Store → Store
map_rows f s = record s { by_household = map_values (map_values f) s.by_household }

-- `finish_stale`
abbrev pub swept : ℕ → Conversation → Conversation
swept now c =
    if is_live c then record c { status = ready; ended_at = some (get_or c.ended_at now) } else c

unfoldable pub finish_stale : ℕ → Store → Store × List (Text × Text)
unfolding all_rows map_rows
finish_stale now s = (
  map_rows (swept now) s,
  map (λ r. (r.0, r.1.id)) (keep_if (λ r. is_live r.1) (all_rows s.by_household)),
)

-- `_delivery_state`
unfoldable pub delivery_state : Conversation → Option DeliveryState
delivery_state c = if is_screen c then some (get_or c.delivery_state pending) else none

abbrev pub is_pending : Option DeliveryState → Bool
is_pending none = false
is_pending (some d) = elim d [ pending ↦ true | sent ↦ false | failed ↦ false ]

abbrev pub is_failed : Option DeliveryState → Bool
is_failed none = false
is_failed (some d) = elim d [ pending ↦ false | sent ↦ false | failed ↦ true ]

abbrev pub awaits_delivery : Conversation → Bool
awaits_delivery c = not (is_live c) && is_pending (delivery_state c)

-- The order of Python strings, code point by code point.
unfoldable pub text_lt : Text → Text → Bool
text_lt [] [] = false
text_lt [] (d ∷ ds) = true
text_lt (c ∷ cs) [] = false
text_lt (c ∷ cs) (d ∷ ds) = ltb c d || (c == d && text_lt cs ds)

-- The sort key of `pending_deliveries`: the end, then the id.
abbrev pub oldest : Text × Conversation → Text × Conversation → Bool
oldest a b =
    ltb (ended_or_started a.1) (ended_or_started b.1)
    || (ended_or_started a.1 == ended_or_started b.1 && text_lt a.1.id b.1.id)

unfoldable pub pending_deliveries : Store → List (Text × Text × Option Text)
unfolding all_rows delivery_state text_lt sort_by
pending_deliveries s =
    map (λ r. (r.0, r.1.id, r.1.org_site_key))
      (sort_by oldest (keep_if (λ r. awaits_delivery r.1) (all_rows s.by_household)))

unfoldable pub set_delivery : Text → Text → DeliveryState → Option Text → Store → Store
unfolding change_row
set_delivery household conversation_id state error s =
    change_row household conversation_id
      (λ c.
        if is_screen c then record c { delivery_state = some state; delivery_error = error } else c)
      s

pub record DeliverySummary : Type 0 where
  pub pending_count : ℕ
  pub failed_count : ℕ
  pub error : Option Text

-- The last element of the failures, oldest end first.
unfoldable pub last_error : List (Text × Conversation) → Option Text
last_error [] = none
last_error (r ∷ []) = r.1.delivery_error
last_error (r ∷ q ∷ rs) = last_error (q ∷ rs)

abbrev pub ended_earlier : Text × Conversation → Text × Conversation → Bool
ended_earlier a b = ltb (ended_or_started a.1) (ended_or_started b.1)

unfoldable pub delivery_summary : ℕ → Store → DeliverySummary
unfolding all_rows delivery_state sort_by last_error
delivery_summary since s =
    let done = keep_if (λ r. not (is_live r.1) && is_screen r.1) (all_rows s.by_household) in
    let failures =
      sort_by ended_earlier
        (keep_if (λ r. is_failed r.1.delivery_state && leb since (ended_or_started r.1)) done) in
    record {
      pending_count = length (keep_if (λ r. is_pending (delivery_state r.1)) done);
      failed_count = length failures;
      error = last_error failures;
    }

-- The test of `requeue_failed_deliveries`.
unfoldable pub is_requeued : List Text → Conversation → Bool
unfolding starts_with
is_requeued reasons c =
    is_screen c
    && is_failed c.delivery_state
    && any (λ reason. starts_with reason (get_or c.delivery_error [])) reasons

abbrev pub requeued : List Text → Conversation → Conversation
requeued reasons c = if is_requeued reasons c then record c { delivery_state = some pending } else c

unfoldable pub requeue_failed_deliveries : List Text → Store → Store × List (Text × Text)
unfolding all_rows map_rows is_requeued
requeue_failed_deliveries reasons s = (
  map_rows (requeued reasons) s,
  map (λ r. (r.0, r.1.id)) (keep_if (λ r. is_requeued reasons r.1) (all_rows s.by_household)),
)

-- `search`; `lower` is `str.lower`.
unfoldable pub term_score : Text → List Text → ℕ
unfolding count_from
term_score hay [] = 0
term_score hay (t ∷ ts) = count_from t 0 hay + term_score hay ts

-- Higher score first, and the newer row first among equals.
abbrev pub better : ℕ × Conversation → ℕ × Conversation → Bool
better a b = ltb b.0 a.0 || (a.0 == b.0 && newer a.1 b.1)

unfoldable pub scored : (Text → Text) → List Text → List Conversation → List (ℕ × Conversation)
unfolding term_score transcript
scored lower terms [] = []
scored lower terms (c ∷ cs) =
    let rest = scored lower terms cs in
    let score = term_score (lower (transcript c)) terms in
    if score == 0 then rest else (score, c) ∷ rest

-- The body of `search`, given the terms of the query.
unfoldable pub search_for :
    (Text → Text)
    → List Text
    → Text
    → Option Text
    → Option Text
    → ℕ
    → ℕ
    → Store
    → Store × List ConversationSummary
unfolding conversations scored sort_by owned in_org list_rows summary
search_for lower [] household owner org limit offset s =
    list_rows household owner org limit offset s
search_for lower (t ∷ ts) household owner org limit offset s =
    let (rows, s') = conversations household s in
    (
      s',
      map (λ sc. summary sc.1)
          (page limit offset (
            sort_by better (
              scored lower (t ∷ ts) (keep_if (λ c. owned c owner && in_org c org) (values rows))))),
    )

unfoldable pub search :
    (Text → Text)
    → Text
    → Text
    → Option Text
    → Option Text
    → ℕ
    → ℕ
    → Store
    → Store × List ConversationSummary
unfolding search_for split_words
search lower household query owner org limit offset s =
    search_for lower (split_words (lower query)) household owner org limit offset s
