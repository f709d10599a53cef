-- ===== src/Audio/Agree.antt =====
-- api/src/api/persistence/audio.py: the store in memory and the store on disk answer alike.
use tenir.Prelude.{
  ◌≡◌, ◌∙◌, sym, refl, ap, Bool, true, false, Option, none, some, List, [], ◌∷◌, map, ◌==◌, nat_key,
  list_key, list_beq_iff, if◌then◌else◌,
}
use tenir.Prelude.Text.{Text}
use tenir.Prelude.Dict.{lookup, insert, remove, lookup-insert, lookup-remove, lookup-nil}
use tenir.Audio.Stores.{
  path_of, Bytes, Blobs, Files, Answer, gives, raises, is_there, memory_put, memory_get,
  memory_exists, memory_delete, disk_put, disk_get, disk_exists, disk_delete,
}
use tenir.Audio.Scoped.{path_of_injective}

pub data Request : Type 0 where
  asks_put : Text → Bytes → Request
  asks_get : Text → Request
  asks_exists : Text → Request
  asks_delete : Text → Request

abbrev pub key_of : Request → Text
key_of (asks_put key content) = key
key_of (asks_get key) = key
key_of (asks_exists key) = key
key_of (asks_delete key) = key

pub data Reply : Type 0 where
  done : Reply
  content_is : Option Bytes → Reply
  was_there : Bool → Reply

unfoldable pub memory_reply : Request → Blobs → Reply × Blobs
memory_reply (asks_put key content) blobs = (done, memory_put key content blobs)
memory_reply (asks_get key) blobs = (content_is (memory_get key blobs), blobs)
memory_reply (asks_exists key) blobs = (was_there (memory_exists key blobs), blobs)
memory_reply (asks_delete key) blobs =
    let (there, blobs') = memory_delete key blobs in (was_there there, blobs')

-- What a call answers, with the files that it leaves.
abbrev outcome : {A : Type 0} → (A → Reply × Files) → Files → Answer A → Answer Reply × Files
outcome f files (gives a) = let (reply, files') = f a in (gives reply, files')
outcome f files (raises e) = (raises e, files)

unfoldable pub disk_reply : Request → Files → Answer Reply × Files
disk_reply (asks_put key content) files =
    outcome (λ files'. (done, files')) files (disk_put true key content files)
disk_reply (asks_get key) files =
    outcome (λ found. (content_is found, files)) files (disk_get key files)
disk_reply (asks_exists key) files =
    outcome (λ there. (was_there there, files)) files (disk_exists key files)
disk_reply (asks_delete key) files =
    outcome (λ (there, files'). (was_there there, files')) files (disk_delete key files)

unfoldable pub memory_replies : List Request → Blobs → List Reply
memory_replies [] blobs = []
memory_replies (r ∷ rs) blobs =
    let (reply, blobs') = memory_reply r blobs in reply ∷ memory_replies rs blobs'

unfoldable pub disk_replies : List Request → Files → List (Answer Reply)
disk_replies [] files = []
disk_replies (r ∷ rs) files =
    let (reply, files') = disk_reply r files in reply ∷ disk_replies rs files'

-- Every request is about a key that has a path.
unfoldable pub AllScoped : List Request → Type 0
AllScoped [] = Unit {0}
AllScoped (r ∷ rs) = ((path : List Text) × (path_of (key_of r) ≡ some path)) × AllScoped rs

-- Both hold the same under each key with a path.
abbrev pub Same : Blobs → Files → Type 0
Same blobs files =
    (key : Text) (path : List Text) → path_of key ≡ some path → lookup key blobs ≡ lookup path files

bool_ext : (a b : Bool) → (a ≡ true → b ≡ true) → (b ≡ true → a ≡ true) → a ≡ b
bool_ext true b h k = sym (h refl)
bool_ext false true h k = k refl
bool_ext false false h k = refl

some_injective : (p q : List Text) → some p ≡ some q → p ≡ q
some_injective p q e = cc

-- Keys with paths are equal when their paths are.
path-key :
    (j k : Text) (p q : List Text) → path_of j ≡ some p → path_of k ≡ some q → (j == k) ≡ (p == q)
path-key j k p q e f =
    bool_ext (j == k) (p == q)
      (λ h.
        let jk : j ≡ k = (list_beq_iff j k).0 h in
        let pq : p ≡ q = some_injective p q (sym e ∙ ap path_of jk ∙ f) in (list_beq_iff p q).1 pq)
      (λ h.
        let pq : p ≡ q = (list_beq_iff p q).0 h in
        (list_beq_iff j k).1 (path_of_injective j k p e (f ∙ ap some (sym pq))))

Same-insert :
    (key : Text) (path : List Text) (content : Bytes) (blobs : Blobs) (files : Files)
    → path_of key ≡ some path
    → Same blobs files
    → Same (insert key content blobs) (insert path content files)
Same-insert key path content blobs files e same k q f =
    lookup-insert key k content blobs
    ∙ ap (λ b. if b then some content else lookup k blobs) (path-key key k path q e f)
    ∙ ap (λ x. if path == q then some content else x) (same k q f)
    ∙ sym (lookup-insert path q content files)

Same-remove :
    (key : Text) (path : List Text) (blobs : Blobs) (files : Files)
    → path_of key ≡ some path
    → Same blobs files
    → Same (remove key blobs) (remove path files)
Same-remove key path blobs files e same k q f =
    lookup-remove key k blobs
    ∙ ap (λ b. if b then none else lookup k blobs) (path-key key k path q e f)
    ∙ ap (λ x. if path == q then none else x) (same k q f)
    ∙ sym (lookup-remove path q files)

-- One request to both.
reply-Same :
    (r : Request) (path : List Text) (blobs : Blobs) (files : Files)
    → path_of (key_of r) ≡ some path
    → Same blobs files
    → ((disk_reply r files).0 ≡ gives (memory_reply r blobs).0)
      × Same (memory_reply r blobs).1 (disk_reply r files).1
unfolding disk_reply memory_reply memory_put memory_get memory_exists memory_delete disk_put
    disk_get disk_exists disk_delete
reply-Same (asks_put key content) path blobs files e same =
    rw (e) (refl, Same-insert key path content blobs files e same)
reply-Same (asks_get key) path blobs files e same =
    rw (e) (ap (λ x. gives (content_is x)) (sym (same key path e)), same)
reply-Same (asks_exists key) path blobs files e same =
    rw (e) (ap (λ x. gives (was_there (is_there x))) (sym (same key path e)), same)
reply-Same (asks_delete key) path blobs files e same = rw (e) (
  ap (λ x. gives (was_there (is_there x))) (sym (same key path e)),
  Same-remove key path blobs files e same,
)

replies-Same :
    (rs : List Request) (blobs : Blobs) (files : Files)
    → AllScoped rs
    → Same blobs files
    → disk_replies rs files ≡ map gives (memory_replies rs blobs)
unfolding disk_replies memory_replies AllScoped
replies-Same [] blobs files scoped same = refl
replies-Same (r ∷ rs) blobs files scoped same =
    let (reply, same') = reply-Same r scoped.0.0 blobs files scoped.0.1 same in
    ap (λ x. x ∷ disk_replies rs (disk_reply r files).1) reply
    ∙ ap (◌∷◌ (gives (memory_reply r blobs).0)) (replies-Same rs _ _ scoped.1 same')

-- From empty stores, the disk answers as the memory does, as long as every key has a path and every
-- write succeeds.
pub disk_replies-memory_replies :
    (rs : List Request) → AllScoped rs → disk_replies rs [] ≡ map gives (memory_replies rs [])
disk_replies-memory_replies rs scoped =
    replies-Same rs [] [] scoped (λ key path e. lookup-nil key ∙ sym (lookup-nil path))
