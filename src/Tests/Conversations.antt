-- ===== src/Tests/Conversations.antt =====
-- Runs of api/src/api/persistence/conversations.py.
use tenir.Prelude.{ℕ, ◌≡◌, refl, none, some, List, [], ◌∷◌, arith, inl}
use tenir.Prelude.Text.{Text, codes, join, split_words, count_from}
use tenir.Conversations.Model.{ready, transcript, Segment, Conversation, summary}
use tenir.Conversations.Store.{
  Store, empty, rows_of, set_rows, conversations, row, put_row, change_row, NewConversation, fresh,
  created, create, upsert, add_segment, finish_row, finish, households, owned, in_org, listed,
  list_rows,
}
use tenir.Conversations.Sweep.{
  finish_stale, all_rows, map_rows, delivery_state, pending_deliveries, term_score, scored, search,
}
use tenir.Conversations.Ops.{Op, Edit, new, edit, read, segment, finish_with, run, row_run, step}
use tenir.Conversations.Private.{MayRead, search_private}
use tenir.Prelude.Dict.{lookup, insert}
use tenir.Prelude.Sorting.{sort_by}
use tenir.Conversations.Refine.{row-run}
use tenir.Conversations.Lifecycle.{run-absent}
use tenir.Conversations.Sessions.{OpenSince, finish_latest}
use tenir.Conversations.Invariant.{IsStore, run-IsStore}
use tenir.Conversations.Keys.{IsKeyed, run-IsKeyed}

abbrev home : Text
home = codes "home"

abbrev first : Text
first = codes "c1"

abbrev by_ana : NewConversation
by_ana = record {
  owner = some (codes "ana");
  mic_source = none;
  source_lang = none;
  screen_meta = none;
}

abbrev meeting : NewConversation
meeting = record by_ana {
  screen_meta =
      some
        (record { org_site_key = codes "acme"; org_name = codes "Acme"; platform = codes "zoom" });
}

abbrev turn : Text → Segment
turn i = record {
  segment_id = i;
  text = codes "hello";
  start_ms = 0;
  end_ms = 900;
  lang = none;
  translation = none;
  speaker = none;
}

abbrev same_text : Text → Text
same_text t = t

-- A turn that is emitted twice is stored once.
abbrev ops : List (ℕ × Op)
ops =
    (10, new home first by_ana)
    ∷ (11, edit home first (segment (turn (codes "s1"))))
    ∷ (12, edit home first (segment (turn (codes "s1"))))
    ∷ (13, new home (codes "c2") meeting)
    ∷ (14, edit home (codes "c2") (finish_with ready none))
    ∷ []

stored : Store
stored = run same_text ops empty

program : Unit {0}
unfolding stored run step create conversations put_row set_rows rows_of row created fresh change_row
    lookup insert upsert finish_row finish add_segment households finish_stale pending_deliveries
    all_rows map_rows delivery_state sort_by
program = tt

-- A household that was only asked for is listed too.
households_after_read : households (step same_text 1 (read home) empty) ≡ home ∷ []
unfolding program
households_after_read = refl

stored_pending : pending_deliveries stored ≡ (home, codes "c2", some (codes "acme")) ∷ []
unfolding program
stored_pending = refl

one_segment :
    row home first stored
    ≡ some (record (fresh 10 home first by_ana) { segments = turn (codes "s1") ∷ [] })
unfolding program
one_segment = refl

IsStore-empty : IsStore empty
unfolding row rows_of lookup
IsStore-empty = record { at_row = λ h k c e. absurd (cc) }

IsKeyed-empty : IsKeyed empty
IsKeyed-empty = record { households_once = tt; rows_once = tt }

ops-IsStore : IsStore (run same_text ops empty)
ops-IsStore = run-IsStore same_text ops empty IsStore-empty

run-IsStore_example : IsStore (run same_text ops empty)
run-IsStore_example = run-IsStore same_text ops empty IsStore-empty

ops-IsKeyed : IsKeyed (run same_text ops empty)
ops-IsKeyed = run-IsKeyed same_text ops empty IsKeyed-empty

row-run_example :
    row home first (run same_text ops empty) ≡ row_run home first ops (row home first empty)
row-run_example = row-run home first same_text ops empty

-- The late segment and the late finish come after the delete.
run-absent_example :
    row home first (
      run same_text
        ((21, edit home first (segment (turn (codes "s2"))))
          ∷ (22, edit home first (finish_with ready none))
          ∷ [])
        empty)
    ≡ none
unfolding row rows_of lookup
run-absent_example =
    run-absent home first same_text
      ((21, edit home first (segment (turn (codes "s2"))))
        ∷ (22, edit home first (finish_with ready none))
        ∷ [])
      empty (refl, (refl, tt)) refl

abbrev late : List (ℕ × Op)
late = (31, edit home first (segment (turn (codes "s9")))) ∷ []

finish_latest_example :
    let s' = run same_text ((30, edit home first Edit.reopen_row) ∷ late) stored in
    (c : Conversation) × OpenSince home first 30 c
    × (row home first s' ≡ some c)
    × (row home first (finish 40 home first ready (some 10) s').0 ≡ some c)
    × (row home first (finish 40 home first ready (some 30) s').0
        ≡ some (record c { status = ready; ended_at = some 40 }))
finish_latest_example =
    finish_latest home first same_text late stored
      (record (fresh 10 home first by_ana) { segments = turn (codes "s1") ∷ [] }) 10 30 40
      one_segment (omega arith) (refl, tt)

abbrev ana_row : Conversation
unfolding fresh
ana_row = record (fresh 10 home first by_ana) { segments = turn (codes "s1") ∷ [] }

search_private_example :
    (c : Conversation) × MayRead home (some (codes "ana")) none (run same_text ops empty) c
    × (summary ana_row ≡ summary c)
unfolding program join search split_words count_from listed list_rows scored owned in_org transcript
    term_score summary
search_private_example =
    search_private (run same_text ops empty) ops-IsKeyed ops-IsStore home (some (codes "ana")) none
      same_text (codes "hello") 50 0 (summary ana_row) (inl refl)
