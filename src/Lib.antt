-- ===== src/Lib.antt =====
-- Tenir's api: the parts that decide what is captioned, what is stored and who may read it.
--
-- Agreement models api/src/api/stt/agreement.py, the LocalAgreement-2 policy by which a word of a
-- live caption is committed. A hypothesis is a list of words, a word the list of its code points.
-- `str.lower` is a parameter, because its table is the Unicode database.
--
-- Conversations models api/src/api/persistence/models.py (Conversations/Model) and the in-memory
-- conversation store of api/src/api/persistence/conversations.py (Conversations/Store for the
-- methods on one row, Conversations/Sweep for those that go through all rows, Conversations/Orgs for
-- `orgs`). Each method holds the store's lock for its whole body, so it is one function from the store
-- to the new store and its result; `utcnow()` is an argument, and a deep copy is the value itself. A caller that keeps
-- changing a Segment after it handed it over is not modelled.
-- Conversations/Ops runs the methods as a machine beside the abstract store of independent rows.
--
-- Streaming models api/src/api/stt/streaming.py, by which a session's audio becomes turns and turns
-- become decode jobs: Streaming/Cut (units, and where a long turn is cut), Streaming/Ingest (`push`,
-- the voice gate, `_close_turn`, `flush`) and Streaming/Worker (`_work` with the merge of a backlog).
-- Audio is a list of bytes; levels, scores and times are natural numbers. numpy's energies and levels,
-- the two float products of the threshold and the audio that the decode rate allows for a merge come
-- in as parameters, and so does the time. One event runs at a time, as asyncio runs the code between
-- two awaits: a worker's decode starts with the event `took` and ends with `ended`. The decode itself
-- is Streaming/Engine (`_run_engine`, and `_decode_final` with its retries: fuel for eleven attempts,
-- which the budget of sleeps cannot pass) and Streaming/Finalize (`_emit_partial`, `_finalize`, the
-- queue of `results`). The engine answers each call as it likes; `close` sets its flag, cancels the
-- worker and queues the empty partial that ends `results`.
--
-- Users models api/src/api/auth/users.py: Users/Names (which usernames are accepted and how they are
-- looked up), Users/Store (`InMemoryUserStore` with its dictionaries), Users/Devices and Users/Resolve
-- (`resolve_oidc_principal`, from a validated token to the account). An exception is a value of
-- Refused. What the Unicode database says, the hash of a password and the new `uuid4` come in as
-- arguments, and so does the clock. The lists of users and of device tokens, `reconcile_admin` and
-- the SQL store are not modelled.
--
-- Audio models api/src/api/persistence/audio.py: Audio/Stores has the object keys, the paths of the
-- disk store below its root, which holds no symbolic links, and the methods of both stores. A write to
-- disk goes to a temporary file first, so it is one step that succeeds or changes nothing.
--
-- Auth models the bearer tokens of api/src/api/auth/tokens.py: Auth/Tokens has `issue_token`,
-- `decode_token` and `renew_token_if_due`. A clock is in milliseconds and the claims in seconds, as
-- whole numbers. JSON with base64, the HMAC and `str` of a value that is no text are a parameter; a
-- payload that is signed is taken to be an object. `hmac.compare_digest` refuses a text beyond ASCII
-- with a TypeError, which is a result of its own. Auth/Passwords has `hash_password` and
-- `verify_password`; PBKDF2, the random salt and the digits of numbers and bytes are parameters.
--
-- Registry models `start_lock` of api/src/api/registry.py: Registry/Locks has the dictionary of locks
-- with their counts of holders and the tasks between the two counts. A task comes, gets its lock, or
-- leaves (also when it is cancelled while it waits), and any order of these is a run. An id of None
-- takes no lock. Registry/Sessions has the dictionary of live sessions.
--
-- FairPool models the class of that name in api/src/api/screen/meetings.py: the line of users with
-- waiting jobs and the number of busy threads. A section under the lock (an append, one turn of the
-- loop of `_next`, the end of a `_call` that runs) is one event, so the events in any order are the threads in any
-- interleaving. Whether a caller was cancelled comes with the event; the executor, the futures and
-- `_settle` are not modelled.
--
-- Meetings models MeetingTracker of the same file, which turns the captions read off one window into
-- conversations: Meetings/Tracker (its state, the writes to the store, `_start`) and Meetings/Frames
-- (`on_full`, the warning that captions are off, `on_caption`, `end`). The merger, the roster and the
-- store stand outside: Meetings/Parts has the operations of the first two as records, and a call of
-- the store or the merger (Meetings/Calls) fails as the Window says, by the number of the call. A
-- method is an action whose state stays written when it raises. The tracker's lock makes each method
-- one step. Metrics and logs are left out. Meetings/Windows has `put` and `_drop` of `ScreenMeetings`,
-- which keeps the trackers; its `sweep`, `detach` and `close_all` are not modelled.
--
-- Session models api/src/api/session.py, the state of a connection, in parts that each have a state
-- of their own and events in any order, where an event is what runs between two awaits:
-- Session/Writes (`_store`, `_flush_writes`), Session/Retain (`on_audio`, `_retain_audio`,
-- `_persist_audio`), Session/Translate (`_consider_translation` with its runs,
-- `resend_ended_asides`), Session/Cues (`_consider_cue`, its floor timer and `_cue_catch_up`),
-- Session/Surfaced (what `_generate_cue` shows of what was generated), Session/Music
-- (`_scan_music_once` from the answer of the recognizer on, the runs it opens, re-anchors and ends),
-- Session/Drain (`_drain_results` with `_final_age_s` and `_track_caption_lag`) and Session/Outbox
-- (`_buffer_send`, `detach`, `rebind`). The WAV container (the
-- `wave` module, which reads back whole samples only), language identification, the models and
-- the store are parameters, or answer as an event says. Not modelled are `start` and `close`, the
-- generation of a cue, the window of audio for the recognizer with the cadence of its scans, and the
-- repeat of a song's end after a resume.
--
-- Prelude holds what the parts share: Boolean tests, lists over the native numbers, Python's
-- dictionaries in insertion order, its stable sort, and the string methods that the code calls.
pub mod Agreement
pub mod Audio
pub mod Auth
pub mod Conversations
pub mod FairPool
pub mod Meetings
pub mod Prelude
pub mod Registry
pub mod Session
pub mod Streaming
pub mod Tests
pub mod Users
