-- ===== src/Tests/Audio.antt =====
-- Runs of the audio stores of api/src/api/persistence/audio.py.
use tenir.Prelude.{◌≡◌, refl, true, false, some, List, [], ◌∷◌, ◌++◌, map}
use tenir.Prelude.Text.{codes}
use tenir.Prelude.Dict.{lookup, insert, remove}
use tenir.Prelude.Split.{split_on}
use tenir.Audio.Stores.{
  is_special, is_unsafe, wav, audio_key, path_of, gives, memory_put, memory_get, memory_exists,
  memory_delete, disk_put, disk_get, disk_exists, disk_delete, raises, value_error,
}
use tenir.Audio.Scoped.{path_of-audio_key}
use tenir.Audio.Agree.{
  Request, asks_put, asks_get, asks_exists, asks_delete, was_there, content_is, done, memory_reply,
  disk_reply, memory_replies, disk_replies, AllScoped, disk_replies-memory_replies,
}

program : Unit {0}
unfolding lookup insert remove split_on is_special is_unsafe audio_key path_of memory_put memory_get
    memory_exists memory_delete disk_put disk_get disk_exists disk_delete memory_reply disk_reply
    memory_replies disk_replies AllScoped
program = tt

home_key : audio_key (codes "home") (codes "c1") ≡ some (codes "home/c1.wav")
unfolding program
home_key = refl

path_of-audio_key_example :
    path_of (codes "home/c1.wav") ≡ some (codes "home" ∷ ((codes "c1" ++ wav) ∷ []))
path_of-audio_key_example =
    path_of-audio_key (codes "home") (codes "c1") (codes "home/c1.wav") home_key

abbrev requests : List Request
requests =
    asks_put (codes "home/c1.wav") (7 ∷ [])
    ∷ (asks_get (codes "home/c1.wav")
        ∷ (asks_delete (codes "home/c1.wav") ∷ (asks_exists (codes "home/c1.wav") ∷ [])))

requests-AllScoped : AllScoped requests
unfolding program
requests-AllScoped = ((_, refl), ((_, refl), ((_, refl), ((_, refl), tt))))

disk_replies-memory_replies_example :
    disk_replies requests [] ≡ map gives (memory_replies requests [])
disk_replies-memory_replies_example = disk_replies-memory_replies requests requests-AllScoped

replied :
    memory_replies requests []
    ≡ done ∷ (content_is (some (7 ∷ [])) ∷ (was_there true ∷ (was_there false ∷ [])))
unfolding program
replied = refl

-- The directory of another household is not reached.
no_way_out : disk_get (codes "beta/../alpha/x.wav") [] ≡ raises value_error
unfolding program
no_way_out = refl
