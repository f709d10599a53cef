-- ===== src/Conversations/Orgs.antt =====
-- api/src/api/persistence/conversations.py: `orgs`, the sites that a member's meetings came from.
use tenir.Prelude.{
  ℕ, ◌≤◌, ◌≡◌, refl, sym, subst, ap, ◌∙◌, Bool, true, false, ◌&&◌, ◌||◌, Option, none, some, List,
  [], ◌∷◌, map, ltb, ◌==◌, nat_key, list_key, if◌then◌else◌, arith, inl, inr, beq_refl,
  list_beq_iff, Bool-cases,
}
use tenir.Prelude.Text.{Text}
use tenir.Prelude.Elem.{Elem}
use tenir.Prelude.Dict.{Dict, lookup, insert, lookup-insert}
use tenir.Prelude.Sorting.{sort_by}
use tenir.Conversations.Model.{Conversation}
use tenir.Conversations.Store.{Store, conversations, owned, values}
use tenir.Conversations.Sweep.{text_lt}

-- The later one of a conversation and what was seen of its site.
abbrev later :
    Text → Conversation → Option Conversation → Dict Text Conversation → Dict Text Conversation
later key c none d = insert key c d
later key c (some seen) d = if ltb seen.started_at c.started_at then insert key c d else d

abbrev seen_at : Option Text → Bool → Conversation → Dict Text Conversation → Dict Text Conversation
seen_at none mine c d = d
seen_at (some key) true c d = later key c (lookup key d) d
seen_at (some key) false c d = d

-- The last conversation of each site.
unfoldable pub latest :
    Option Text → List Conversation → Dict Text Conversation → Dict Text Conversation
latest owner [] d = d
latest owner (c ∷ cs) d = latest owner cs (seen_at c.org_site_key (owned c owner) c d)

-- `conv.org_name or key`
abbrev pub name_or : Text → Option Text → Text
name_or key none = key
name_or key (some []) = key
name_or key (some (c ∷ cs)) = c ∷ cs

abbrev pub org_above : (Text → Text) → Text × Text → Text × Text → Bool
org_above casefold a b =
    text_lt (casefold a.1) (casefold b.1) || (casefold a.1 == casefold b.1 && text_lt a.0 b.0)

unfoldable pub orgs : (Text → Text) → Text → Option Text → Store → Store × List (Text × Text)
orgs casefold household owner s =
    let (rows, s') = conversations household s in
    let pairs = map (λ x. (x.0, name_or x.0 x.1.org_name)) (latest owner (values rows) []) in
    (s', sort_by (org_above casefold) pairs)

-- A conversation of the site that started no sooner is held.
AtLeast : Text → ℕ → Dict Text Conversation → Type 0
AtLeast key n d = (c : Conversation) × ((lookup key d ≡ some c) × (n ≤ c.started_at))

AtLeast-insert :
    (key j : Text) (n : ℕ) (c : Conversation) (d : Dict Text Conversation)
    → (j ≡ key → n ≤ c.started_at)
    → AtLeast key n d
    → AtLeast key n (insert j c d)
unfolding AtLeast
AtLeast-insert key j n c d h (b, (held, enough)) = elim (Bool-cases (j == key)) [
  | inl same ↦ (c, (rw (lookup-insert j key c d, same) refl, h ((list_beq_iff j key).0 same)))
  | inr apart ↦ (b, (rw (lookup-insert j key c d, apart) held, enough))
]

later-AtLeast :
    (key j : Text) (n : ℕ) (c : Conversation) (o : Option Conversation) (d : Dict Text Conversation)
    → lookup j d ≡ o
    → AtLeast key n d
    → AtLeast key n (later j c o d)
unfolding AtLeast
later-AtLeast key j n c none d e (b, (held, enough)) =
    AtLeast-insert key j n c d
      (λ jk. let clash : none ≡ some b = sym e ∙ ap (λ x. lookup x d) jk ∙ held in absurd (cc))
      (b, (held, enough))
later-AtLeast key j n c (some seen) d e (b, (held, enough)) =
    elim (Bool-cases (ltb seen.started_at c.started_at)) [
      | inr older ↦ rw (older) (b, (held, enough))
      | inl newer_c ↦ rw (newer_c) (
          AtLeast-insert key j n c d
            (λ jk.
              let both : some seen ≡ some b = sym e ∙ ap (λ x. lookup x d) jk ∙ held in
              let same : seen ≡ b = cc in
              let started : seen.started_at ≡ b.started_at = ap (λ x. x.started_at) same in
              ground (arith, started, enough, newer_c))
            (b, (held, enough)))
    ]

seen_at-AtLeast :
    (key : Text) (n : ℕ) (o : Option Text) (mine : Bool) (c : Conversation)
    (d : Dict Text Conversation)
    → AtLeast key n d
    → AtLeast key n (seen_at o mine c d)
seen_at-AtLeast key n none mine c d held = held
seen_at-AtLeast key n (some j) true c d held = later-AtLeast key j n c (lookup j d) d refl held
seen_at-AtLeast key n (some j) false c d held = held

latest-AtLeast :
    (owner : Option Text) (key : Text) (n : ℕ) (cs : List Conversation) (d : Dict Text Conversation)
    → AtLeast key n d
    → AtLeast key n (latest owner cs d)
unfolding latest
latest-AtLeast owner key n [] d held = held
latest-AtLeast owner key n (c ∷ cs) d held =
    latest-AtLeast owner key n cs _ (seen_at-AtLeast key n c.org_site_key (owned c owner) c d held)

later_new :
    (key : Text) (c : Conversation) (o : Option Conversation) (d : Dict Text Conversation)
    → lookup key d ≡ o
    → AtLeast key c.started_at (later key c o d)
unfolding AtLeast
later_new key c none d e = (c, (rw (lookup-insert key key c d, beq_refl key) refl, omega arith))
later_new key c (some seen) d e = elim (Bool-cases (ltb seen.started_at c.started_at)) [
  | inl older ↦ rw (older) (c, (rw (lookup-insert key key c d, beq_refl key) refl, omega arith))
  | inr newer_seen ↦ rw (newer_seen) (seen, (e, ground (arith, newer_seen)))
]

seen_at_new :
    (key : Text) (o : Option Text) (mine : Bool) (c : Conversation) (d : Dict Text Conversation)
    → o ≡ some key
    → mine ≡ true
    → AtLeast key c.started_at (seen_at o mine c d)
seen_at_new key none mine c d e m = absurd (cc)
seen_at_new key (some j) false c d e m = absurd (cc)
seen_at_new key (some j) true c d e m =
    let jk : j ≡ key = cc in
    subst (λ x. AtLeast x c.started_at (later j c (lookup j d) d)) jk
      (later_new j c (lookup j d) d refl)

-- Each site of a conversation that the member owns is listed with the last one of its conversations.
latest_covers :
    (owner : Option Text) (key : Text) (c : Conversation) (cs : List Conversation)
    (d : Dict Text Conversation)
    → Elem c cs
    → c.org_site_key ≡ some key
    → owned c owner ≡ true
    → AtLeast key c.started_at (latest owner cs d)
unfolding latest
latest_covers owner key c [] d h site mine = absurd h
latest_covers owner key c (b ∷ bs) d (inr h) site mine = latest_covers owner key c bs _ h site mine
latest_covers owner key c (b ∷ bs) d (inl same) site mine =
    subst
      (λ x. AtLeast key c.started_at (latest owner bs (seen_at x.org_site_key (owned x owner) x d)))
      same
      (latest-AtLeast owner key c.started_at bs _
        (seen_at_new key c.org_site_key (owned c owner) c d site mine))
