-- ===== src/Audio/Stores.antt =====
-- api/src/api/persistence/audio.py: the object keys, and the stores in memory and on disk.
use tenir.Prelude.{
  ℕ, Bool, true, false, ◌||◌, Option, none, some, List, [], ◌∷◌, ◌++◌, ◌==◌, nat_key, list_key,
  if◌then◌else◌,
}
use tenir.Prelude.Text.{Text, codes}
use tenir.Prelude.Split.{split_on, has}
use tenir.Prelude.Dict.{Dict, lookup, insert, remove}

abbrev pub slash : ℕ
slash = 47

-- A part that is no plain name of a file.
unfoldable pub is_special : Text → Bool
is_special part =
    part == [] || (part == codes "." || (part == codes ".." || (has 92 part || has 0 part)))

-- `_reject_unsafe`, whether it raises
unfoldable pub is_unsafe : Text → Bool
is_unsafe part = is_special part || has slash part

abbrev pub wav : Text
wav = codes ".wav"

-- none is the ValueError.
unfoldable pub audio_key : Text → Text → Option Text
audio_key household conversation_id =
    if is_unsafe household || is_unsafe conversation_id
    then none
    else some (household ++ (slash ∷ (conversation_id ++ wav)))

-- `_path`, below the root, which holds no symbolic links.
abbrev pub two_parts : List Text → Option (List Text)
two_parts (household ∷ (file ∷ [])) =
    if is_special household || is_special file then none else some (household ∷ (file ∷ []))
two_parts parts = none

unfoldable pub path_of : Text → Option (List Text)
path_of key = two_parts (split_on slash key)

abbrev pub Bytes : Type 0
Bytes = List ℕ

-- The blobs by key, and the files by path.
abbrev pub Blobs : Type 0
Blobs = Dict Text Bytes

abbrev pub Files : Type 0
Files = Dict (List Text) Bytes

pub data AudioError : Type 0 where
  value_error : AudioError
  os_error : AudioError

pub data Answer (A : Type 0) : Type 0 where
  gives : A → Answer A
  raises : AudioError → Answer A

abbrev pub is_there : Option Bytes → Bool
is_there none = false
is_there (some data') = true

-- `InMemoryAudioStore`
unfoldable pub memory_put : Text → Bytes → Blobs → Blobs
memory_put key content blobs = insert key content blobs

unfoldable pub memory_get : Text → Blobs → Option Bytes
memory_get key blobs = lookup key blobs

unfoldable pub memory_exists : Text → Blobs → Bool
memory_exists key blobs = is_there (lookup key blobs)

unfoldable pub memory_delete : Text → Blobs → Bool × Blobs
memory_delete key blobs = (is_there (lookup key blobs), remove key blobs)

-- `LocalDiskAudioStore.put`; what is written goes to a temporary file first, so a write that fails
-- changes nothing.
abbrev pub at_path : {A : Type 0} → Option (List Text) → (List Text → Answer A) → Answer A
at_path none f = raises value_error
at_path (some path) f = f path

unfoldable pub disk_put : Bool → Text → Bytes → Files → Answer Files
disk_put written key content files =
    at_path (path_of key)
      (λ path. if written then gives (insert path content files) else raises os_error)

unfoldable pub disk_get : Text → Files → Answer (Option Bytes)
disk_get key files = at_path (path_of key) (λ path. gives (lookup path files))

unfoldable pub disk_exists : Text → Files → Answer Bool
disk_exists key files = at_path (path_of key) (λ path. gives (is_there (lookup path files)))

unfoldable pub disk_delete : Text → Files → Answer (Bool × Files)
disk_delete key files =
    at_path (path_of key) (λ path. gives (is_there (lookup path files), remove path files))
