-- ===== src/Conversations/Private.antt =====
-- api/src/api/persistence/conversations.py: what a member can read with `get`, `list` and `search`.
use tenir.Prelude.{
  ℕ, ◌≡◌, ◌↔◌, ◌⊎◌, refl, true, ◌&&◌, Option, none, some, List, [], ◌∷◌, arith, keep_if,
  option_beq_iff, nat_key, list_key, inl,
}
use tenir.Prelude.Elem.{Elem, Elem-map, Elem-keep_if, Elem-take, Elem-drop}
use tenir.Prelude.Sorting.{Elem-sort_by, IsSorted, sort_by-IsSorted}
use tenir.Prelude.Text.{Text, split_words}
use tenir.Conversations.Model.{Conversation, ConversationSummary, summary}
use tenir.Conversations.Store.{
  Store, rows_of, conversations, row, owned, in_org, values, newer, listed, list_rows,
}
use tenir.Conversations.Sweep.{scored, better, search_for, search}
use tenir.Conversations.Invariant.{IsStore}
use tenir.Conversations.Keys.{IsKeyed}
use tenir.Conversations.Swept.{values_iff}

-- A row that the caller may read: filed under the household, the caller's own unless no owner is
-- asked for, and of the org unless none is.
pub record MayRead (h : Text) (owner org : Option Text) (s : Store) (c : Conversation)
    : Type 0 where
  pub stored : row h c.id s ≡ some c
  pub own : (owner ≡ none) ⊎ (c.owner ≡ owner)
  pub of_org : (org ≡ none) ⊎ (c.org_site_key ≡ org)

owned_iff : (c : Conversation) (o : Option Text) → (owned c o ≡ true) ↔ (o ≡ none) ⊎ (c.owner ≡ o)
unfolding owned
owned_iff c none = ((λ h. inl refl), (λ h. refl))
owned_iff c (some o) = (
  (λ h. ground (arith, option_beq_iff c.owner (some o))),
  (λ h. ground (arith, option_beq_iff c.owner (some o))),
)

in_org_iff :
    (c : Conversation) (o : Option Text) → (in_org c o ≡ true) ↔ (o ≡ none) ⊎ (c.org_site_key ≡ o)
unfolding in_org
in_org_iff c none = ((λ h. inl refl), (λ h. refl))
in_org_iff c (some o) = (
  (λ h. ground (arith, option_beq_iff c.org_site_key (some o))),
  (λ h. ground (arith, option_beq_iff c.org_site_key (some o))),
)

scored-Elem :
    (lower : Text → Text) (terms : List Text) (x : ℕ × Conversation) (cs : List Conversation)
    → Elem x (scored lower terms cs)
    → Elem x.1 cs
unfolding scored
scored-Elem lower terms x [] h = absurd h
scored-Elem lower terms x (c ∷ cs) h = ground (arith, scored-Elem lower terms x cs)

module _ (s : Store) (keyed : IsKeyed s) (inv : IsStore s) (h : Text)
    (owner org : Option Text) where
  visible_iff :
      (c : Conversation)
      → Elem c (keep_if (λ c. owned c owner && in_org c org) (values (rows_of h s)))
        ↔ MayRead h owner org s c
  visible_iff c = (
    (λ e. ground (
      arith,
      (Elem-keep_if (λ c. owned c owner && in_org c org) c (values (rows_of h s))).0 e,
      values_iff s keyed inv h c,
      owned_iff c owner,
      in_org_iff c org,
    )),
    (λ m. ground (
      arith,
      Elem-keep_if (λ c. owned c owner && in_org c org) c (values (rows_of h s)),
      values_iff s keyed inv h c,
      owned_iff c owner,
      in_org_iff c org,
    )),
  )

  -- `list` pages through exactly the rows that the caller may read, newest first.
  listed_exact :
      (c : Conversation)
      → (Elem c (listed owner org (rows_of h s)) ↔ MayRead h owner org s c)
        × IsSorted newer (listed owner org (rows_of h s))
  unfolding listed
  listed_exact c = (
    (
      (λ e. (visible_iff c).0 ((Elem-sort_by newer c _).0 e)),
      (λ m. (Elem-sort_by newer c _).1 ((visible_iff c).1 m)),
    ),
    sort_by-IsSorted newer (λ x y t. ground arith) (λ x y z p q. ground arith)
        (keep_if (λ c. owned c owner && in_org c org) (values (rows_of h s))),
  )

  page_private :
      (limit offset : ℕ) (sm : ConversationSummary)
      → Elem sm (list_rows h owner org limit offset s).1
      → (c : Conversation) × MayRead h owner org s c × (sm ≡ summary c)
  unfolding list_rows conversations
  page_private limit offset sm e =
      let (c, at, eq) = (Elem-map summary sm _).0 e in
      (c, (listed_exact c).0.0 (Elem-drop offset c _ (Elem-take limit c _ at)), eq)

  search_for_private :
      (lower : Text → Text) (terms : List Text) (limit offset : ℕ) (sm : ConversationSummary)
      → Elem sm (search_for lower terms h owner org limit offset s).1
      → (c : Conversation) × MayRead h owner org s c × (sm ≡ summary c)
  unfolding search_for conversations
  search_for_private lower [] limit offset sm e = page_private limit offset sm e
  search_for_private lower (t ∷ ts) limit offset sm e =
      let (sc, at, eq) = (Elem-map (λ sc. summary sc.1) sm _).0 e in
      let sorted = Elem-drop offset sc _ (Elem-take limit sc _ at) in
      let found = (Elem-sort_by better sc _).0 sorted in
      (sc.1, (visible_iff sc.1).0 (scored-Elem lower (t ∷ ts) sc _ found), eq)

  -- Whatever the query and the page, `search` (and `list`, which it falls back to) shows summaries
  -- only of rows that the caller may read.
  pub search_private :
      (lower : Text → Text) (query : Text) (limit offset : ℕ) (sm : ConversationSummary)
      → Elem sm (search lower h query owner org limit offset s).1
      → (c : Conversation) × MayRead h owner org s c × (sm ≡ summary c)
  unfolding search
  search_private lower query limit offset sm e =
      search_for_private lower (split_words (lower query)) limit offset sm e
