-- ===== src/Session/Writes.antt =====
-- api/src/api/session.py: the transcript writes of a session (`_store`, `_flush_writes`), and which errors
-- of api/src/api/persistence/postgres.py they are retried after.
use tenir.Prelude.{
  Bool, true, false, ◌||◌, Option, none, some, List, [], ◌∷◌, ◌++◌, any, take, ◌==◌, nat_key,
  list_key, option_key, if◌then◌else◌,
}
use tenir.Prelude.Text.{Text, codes}

-- The classes that the code asks an exception for: `DatabaseUnavailable`, `SchemaLockTimeout`, psycopg's
-- `PoolTimeout` and `OperationalError`, any other.
pub data ErrorClass : Type 0 where
  database_unavailable : ErrorClass
  schema_lock_timeout : ErrorClass
  pool_timeout : ErrorClass
  operational_error : ErrorClass
  other_error : ErrorClass

-- An exception, with its attribute `sqlstate`.
pub record WriteError : Type 0 where
  pub error_class : ErrorClass
  pub sqlstate : Option Text

-- `_is_connection_sqlstate`
unfoldable pub is_connection_sqlstate : Text → Bool
is_connection_sqlstate state =
    take 2 state == codes "08"
    || (state == codes "57P01" || (state == codes "57P02" || state == codes "57P03"))

abbrev pub is_lost : Option Text → Bool
is_lost none = true
is_lost (some state) = is_connection_sqlstate state

abbrev pub is_unavailable_as : ErrorClass → Option Text → Bool
is_unavailable_as database_unavailable state = true
is_unavailable_as schema_lock_timeout state = true
is_unavailable_as pool_timeout state = true
is_unavailable_as operational_error state = is_lost state
is_unavailable_as other_error state = false

unfoldable pub is_database_unavailable : WriteError → Bool
is_database_unavailable exc = is_unavailable_as exc.error_class exc.sqlstate

unfoldable pub is_retryable_write : WriteError → Bool
is_retryable_write exc = is_database_unavailable exc || exc.sqlstate == some (codes "57014")

-- `_FOREIGN_KEY_VIOLATION`
abbrev pub foreign_key_violation : Text
foreign_key_violation = codes "23503"

-- How the call of a write ended.
pub data Outcome : Type 0 where
  stored : Outcome
  raised : WriteError → Outcome

-- The calls of `_flush_writes` that wait for the lock, the first of which holds it; true stands for
-- the task `_writer`. `held` is whether the last flush that ended kept writes for a retry, and
-- `calls` are the calls of the store, each with how it ended.
pub record Writer (W : Type 0) : Type 0 where
  pub unsaved_writes : List W
  pub flushes : List Bool
  pub held : Bool
  pub held_by_outage : Bool
  pub row_gone_logged : Bool
  pub calls : List (W × Outcome)

module _ {W : Type 0} where
  -- `_store`
  unfoldable pub store_write : W → Writer W → Writer W
  store_write w s = record s {
    unsaved_writes = s.unsaved_writes ++ (w ∷ []);
    flushes = if any (λ f. f) s.flushes then s.flushes else s.flushes ++ (true ∷ []);
  }

  -- A call of `_flush_writes` by `_finalize`.
  unfoldable pub call_flush : Writer W → Writer W
  call_flush s = record s { flushes = s.flushes ++ (false ∷ []) }

  -- `_hold`, and what it answers.
  unfoldable pub hold : WriteError → Writer W → Writer W × Bool
  hold exc s = (record s { held_by_outage = is_database_unavailable exc }, is_retryable_write exc)

  -- `self._unsaved_writes.popleft()`
  unfoldable pub pop_write : List W → Writer W → Writer W
  pop_write ws s = record s { unsaved_writes = ws; held = false }

  -- After a call: the flush returns with the write kept, or the write leaves the queue.
  abbrev pub after_call : Outcome → List Bool → List W → Writer W → Writer W
  after_call stored rest ws s = pop_write ws s
  after_call (raised exc) rest ws s =
      let (s', retry) = hold exc s in
      if retry
      then record s' { flushes = rest; held = true }
      else pop_write ws (record s' {
        row_gone_logged = s.row_gone_logged || exc.sqlstate == some foreign_key_violation;
      })

  -- One turn of the loop of the flush that holds the lock, with how the call ends; without a write it
  -- returns.
  abbrev pub flush_turn : Outcome → List Bool → List W → Writer W → Writer W
  flush_turn o [] ws s = s
  flush_turn o (f ∷ rest) [] s = record s { flushes = rest }
  flush_turn o (f ∷ rest) (w ∷ ws) s =
      after_call o rest ws (record s { calls = s.calls ++ ((w, o) ∷ []) })

  unfoldable pub flush_writes : Outcome → Writer W → Writer W
  flush_writes o s = flush_turn o s.flushes s.unsaved_writes s

-- What can happen, in any order: a write is queued, a finalize flushes, a call ends.
pub data WriterEvent (W : Type 0) : Type 0 where
  queues : W → WriterEvent W
  flush_called : WriterEvent W
  call_ends : Outcome → WriterEvent W

module _ {W : Type 0} where
  unfoldable pub writer_step : WriterEvent W → Writer W → Writer W
  writer_step (queues w) s = store_write w s
  writer_step flush_called s = call_flush s
  writer_step (call_ends o) s = flush_writes o s

  unfoldable pub writer_run : List (WriterEvent W) → Writer W → Writer W
  writer_run [] s = s
  writer_run (e ∷ es) s = writer_run es (writer_step e s)
