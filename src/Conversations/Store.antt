-- ===== src/Conversations/Store.antt =====
-- api/src/api/persistence/conversations.py: `InMemoryConversationStore`. Every method takes the lock for
-- its whole body, so it is one function from the store to the new store and the result. `utcnow()` is
-- the argument `now`. A returned deep copy is the value itself.
use tenir.Prelude.{
  ℕ, Bool, true, false, ◌&&◌, Option, none, some, List, [], ◌∷◌, ◌++◌, map, take, drop, any,
  keep_if, ltb, ◌==◌, nat_key, list_key, option_key, if◌then◌else◌,
}
use tenir.Prelude.Dict.{Dict, lookup, insert, remove}
use tenir.Prelude.Sorting.{sort_by}
use tenir.Prelude.Text.{Text}
use tenir.Conversations.Model.{
  Status, live, mic, screen, pending, ScreenMeta, alias_key, Segment, Cue, Song,
  ConversationSummary, Conversation, summary,
}

abbrev pub Rows : Type 0
Rows = Dict Text Conversation

-- `_aliases` is keyed by the household, the owner and the org.
abbrev pub AliasScope : Type 0
AliasScope = List Text

pub record Store : Type 0 where
  pub by_household : Dict Text Rows
  pub aliases : Dict AliasScope (Dict Text Text)

-- `__init__`
abbrev pub empty : Store
empty = record { by_household = []; aliases = [] }

abbrev pub get_or {ℓ} : {A : Type ℓ} → Option A → A → A
get_or none d = d
get_or (some a) d = a

unfoldable pub rows_of : Text → Store → Rows
rows_of household s = get_or (lookup household s.by_household) []

unfoldable pub set_rows : Text → Rows → Store → Store
set_rows household rows s = record s { by_household = insert household rows s.by_household }

-- `_conversations`, which is `setdefault`: a household that is asked for is entered, with no rows.
unfoldable pub conversations : Text → Store → Rows × Store
unfolding rows_of set_rows
conversations household s = (
  rows_of household s,
  elim (lookup household s.by_household) [ none ↦ set_rows household [] s | some rows ↦ s ],
)

-- The row that the methods look up.
unfoldable pub row : Text → Text → Store → Option Conversation
unfolding rows_of
row household conversation_id s = lookup conversation_id (rows_of household s)

unfoldable pub put_row : Text → Text → Conversation → Store → Store
unfolding rows_of set_rows
put_row household conversation_id conv s =
    set_rows household (insert conversation_id conv (rows_of household s)) s

-- The shape of the methods that change one row in place: nothing happens where there is none.
unfoldable pub change_row : Text → Text → (Conversation → Conversation) → Store → Store
unfolding conversations put_row
change_row household conversation_id f s =
    let (rows, s') = conversations household s in
    elim (lookup conversation_id rows) [
      | none ↦ s'
      | some conv ↦ put_row household conversation_id (f conv) s'
    ]

-- What `create` makes of a row that is there, and what `reopen` does.
abbrev pub opened : ℕ → Conversation → Conversation
opened now conv = record conv { status = live; ended_at = none; opened_at = some now }

pub record NewConversation : Type 0 where
  pub owner : Option Text
  pub mic_source : Option Text
  pub source_lang : Option Text
  pub screen_meta : Option ScreenMeta

unfoldable pub fresh : ℕ → Text → Text → NewConversation → Conversation
fresh now household conversation_id args = record {
  id = conversation_id;
  household = household;
  owner = args.owner;
  mic_source = args.mic_source;
  source_lang = args.source_lang;
  started_at = now;
  ended_at = none;
  status = live;
  audio_key = none;
  opened_at = some now;
  source = elim args.screen_meta [ none ↦ mic | some m ↦ screen ];
  org_site_key = elim args.screen_meta [ none ↦ none | some m ↦ some m.org_site_key ];
  org_name = elim args.screen_meta [ none ↦ none | some m ↦ some m.org_name ];
  platform = elim args.screen_meta [ none ↦ none | some m ↦ some m.platform ];
  meeting_title = none;
  participants = [];
  delivery_state = elim args.screen_meta [ none ↦ none | some m ↦ some pending ];
  delivery_error = none;
  segments = [];
  cues = [];
  songs = [];
}

-- The row that `create` stores: the existing one, opened again, or a new one.
unfoldable pub created : ℕ → Text → Text → NewConversation → Option Conversation → Conversation
unfolding fresh
created now household conversation_id args (some existing) = opened now existing
created now household conversation_id args none = fresh now household conversation_id args

unfoldable pub create : ℕ → Text → Text → NewConversation → Store → Store × Conversation
unfolding conversations put_row created
create now household conversation_id args s =
    let (rows, s') = conversations household s in
    let conv = created now household conversation_id args (lookup conversation_id rows) in
    (put_row household conversation_id conv s', conv)

unfoldable pub reopen : ℕ → Text → Text → Store → Store × Option Conversation
unfolding change_row row
reopen now household conversation_id s =
    let s' = change_row household conversation_id (opened now) s in
    (s', row household conversation_id s')

-- The loop of `add_segment`, `add_cue` and `add_song`: the first element with the id of `new` is
-- replaced, and a new id goes to the end.
unfoldable pub upsert {ℓ} : {A : Type ℓ} → (A → Text) → A → List A → List A
upsert id new [] = new ∷ []
upsert id new (x ∷ xs) = if id x == id new then new ∷ xs else x ∷ upsert id new xs

unfoldable pub add_segment : Text → Text → Segment → Store → Store
unfolding change_row upsert
add_segment household conversation_id segment s =
    change_row household conversation_id
      (λ c. record c { segments = upsert (λ x. x.segment_id) segment c.segments }) s

-- The loop of `set_segment_translation`.
unfoldable pub translate_first : Text → Text → List Segment → List Segment
translate_first segment_id translation [] = []
translate_first segment_id translation (x ∷ xs) =
    if x.segment_id == segment_id
    then record x { translation = some translation } ∷ xs
    else x ∷ translate_first segment_id translation xs

unfoldable pub set_segment_translation : Text → Text → Text → Text → Store → Store
unfolding change_row translate_first
set_segment_translation household conversation_id segment_id translation s =
    change_row household conversation_id
      (λ c. record c { segments = translate_first segment_id translation c.segments }) s

unfoldable pub add_cue : Text → Text → Cue → Store → Store
unfolding change_row upsert
add_cue household conversation_id cue s =
    change_row household conversation_id
      (λ c. record c { cues = upsert (λ x. x.cue_id) cue c.cues }) s

unfoldable pub add_song : Text → Text → Song → Store → Store
unfolding change_row upsert
add_song household conversation_id song s =
    change_row household conversation_id
      (λ c. record c { songs = upsert (λ x. x.song_id) song c.songs }) s

unfoldable pub set_meeting_title : Text → Text → Text → Store → Store
unfolding change_row
set_meeting_title household conversation_id title s =
    change_row household conversation_id (λ c. record c { meeting_title = some title }) s

-- The loop of `add_participants`.
unfoldable pub add_names : List (Text × ℕ) → List Text → List Text
add_names [] participants = participants
add_names ((name, _) ∷ names) participants =
    add_names names
      (if any (λ p. p == name) participants then participants else participants ++ (name ∷ []))

unfoldable pub add_participants : Text → Text → List (Text × ℕ) → Store → Store
unfolding change_row add_names
add_participants household conversation_id names s =
    change_row household conversation_id
      (λ c. record c { participants = add_names names c.participants }) s

unfoldable pub speaker_aliases : Text → Text → Text → Store → Dict Text Text
speaker_aliases household owner org_site_key s =
    get_or (lookup (household ∷ owner ∷ org_site_key ∷ []) s.aliases) []

unfoldable pub set_speaker_alias : (Text → Text) → Text → Text → Text → Text → Text → Store → Store
unfolding alias_key
set_speaker_alias casefold household owner org_site_key alias name s =
    let key = household ∷ owner ∷ org_site_key ∷ [] in
    record s {
      aliases =
          insert key (insert (alias_key casefold alias) name (get_or (lookup key s.aliases) []))
            s.aliases;
    }

-- `finish`: with a token, only if no later session has reopened the row.
unfoldable pub finish_row : ℕ → Status → Option ℕ → Conversation → Conversation
finish_row now status opened_at conv =
    let closed = record conv { ended_at = some now; status = status } in
    elim opened_at [
      | none ↦ closed
      | some token ↦ if conv.opened_at == some token then closed else conv
    ]

unfoldable pub finish : ℕ → Text → Text → Status → Option ℕ → Store → Store × Option Conversation
unfolding change_row finish_row row
finish now household conversation_id status opened_at s =
    let s' = change_row household conversation_id (finish_row now status opened_at) s in
    (s', row household conversation_id s')

unfoldable pub set_audio_key : Text → Text → Text → Store → Store × Bool
unfolding change_row row
set_audio_key household conversation_id key s = (
  change_row household conversation_id (λ c. record c { audio_key = some key }) s,
  elim (row household conversation_id s) [ none ↦ false | some c ↦ true ],
)

unfoldable pub clear_audio_key : Text → Text → Store → Store
unfolding change_row
clear_audio_key household conversation_id s =
    change_row household conversation_id (λ c. record c { audio_key = none }) s

-- `_owned` and `_in_org`: no owner (or org) asked for is no filter.
unfoldable pub owned : Conversation → Option Text → Bool
owned conv none = true
owned conv (some o) = conv.owner == some o

unfoldable pub in_org : Conversation → Option Text → Bool
in_org conv none = true
in_org conv (some o) = conv.org_site_key == some o

unfoldable pub get : Text → Text → Option Text → Store → Store × Option Conversation
unfolding conversations owned
get household conversation_id owner s =
    let (rows, s') = conversations household s in
    (
      s',
      elim (lookup conversation_id rows) [
        | none ↦ none
        | some conv ↦ if owned conv owner then some conv else none
      ],
    )

abbrev pub values {ℓ κ} : {K : Type ℓ} {V : Type κ} → Dict K V → List V
values = map (λ e. e.1)

-- `convs[offset : offset + limit]`
abbrev pub page {ℓ} : {A : Type ℓ} → ℕ → ℕ → List A → List A
page limit offset xs = take limit (drop offset xs)

abbrev pub newer : Conversation → Conversation → Bool
newer a b = ltb b.started_at a.started_at

-- The rows that `list` pages through.
unfoldable pub listed : Option Text → Option Text → Rows → List Conversation
unfolding owned in_org sort_by
listed owner org rows = sort_by newer (keep_if (λ c. owned c owner && in_org c org) (values rows))

unfoldable pub list_rows :
    Text → Option Text → Option Text → ℕ → ℕ → Store → Store × List ConversationSummary
unfolding conversations listed summary
list_rows household owner org limit offset s =
    let (rows, s') = conversations household s in
    (s', map summary (page limit offset (listed owner org rows)))

unfoldable pub delete : Text → Text → Store → Store × Bool
unfolding conversations
delete household conversation_id s =
    let (rows, s') = conversations household s in
    (
      set_rows household (remove conversation_id rows) s',
      elim (lookup conversation_id rows) [ none ↦ false | some c ↦ true ],
    )

unfoldable pub households : Store → List Text
households s = map (λ e. e.0) s.by_household
