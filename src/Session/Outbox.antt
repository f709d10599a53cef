-- ===== src/Session/Outbox.antt =====
-- api/src/api/session.py: the frames of a session on their way to its sockets (`detach`, `rebind`).
use tenir.Prelude.{
  ℕ, ◌+◌, ◌-◌, Bool, true, false, ◌&&◌, ◌||◌, Option, none, some, List, [], ◌∷◌, ◌++◌, map, ltb,
  leb, drop, length, keep_if, if◌then◌else◌,
}

abbrev pub detached_buffer_max : ℕ
detached_buffer_max = 500

abbrev pub recent_window_ms : ℕ
recent_window_ms = 60000

abbrev pub recent_max : ℕ
recent_max = 500

-- What is written to a socket: a frame for the first time, or a repeat of one.
pub data Written (M : Type 0) : Type 0 where
  fresh : M → Written M
  again : M → Written M

-- `buffering` is whether `_send` is `_buffer_send`, and `alive` whether a write to the socket that
-- `_send` is bound to still succeeds. `catching` is what a rebind under way has yet to write of the
-- frames it took; `written` is what all sockets were given, the clock `time.monotonic()`.
pub record Outbox (M : Type 0) : Type 0 where
  pub clock_ms : ℕ
  pub is_detached : Bool
  pub detached_at : ℕ
  pub grace_task : Bool
  pub was_resumed : Bool
  pub buffering : Bool
  pub alive : Bool
  pub detached_buffer : List M
  pub recent : List (ℕ × M)
  pub catching : Option (List (Written M))
  pub written : List (Written M)

module _ {M : Type 0} where
  -- `_buffer_send`
  abbrev pub capped : List M → List M
  capped ms =
      if ltb detached_buffer_max (length ms) then drop (length ms - detached_buffer_max) ms else ms

  unfoldable pub buffer_send : M → Outbox M → Outbox M
  buffer_send m s = record s { detached_buffer = capped (s.detached_buffer ++ (m ∷ [])) }

  -- A write to the socket; on a dead one it raises, and the frame is lost.
  unfoldable pub write_frame : Written M → Outbox M → Outbox M
  write_frame f s = if s.alive then record s { written = s.written ++ (f ∷ []) } else s

  -- `self._send(msg)`
  unfoldable pub send_frame : M → Outbox M → Outbox M
  send_frame m s = if s.buffering then buffer_send m s else write_frame (fresh m) s

  -- `_remember`; the deque drops the oldest beyond its length.
  unfoldable pub remember : M → Outbox M → Outbox M
  remember m s =
      let recent = s.recent ++ ((s.clock_ms, m) ∷ []) in
      record s { recent = drop (length recent - recent_max) recent }

  -- `detach`, with whether the session is closed.
  unfoldable pub detach : Bool → Outbox M → Outbox M
  detach closed s = if closed || s.is_detached then s else record s {
    is_detached = true;
    detached_at = s.clock_ms;
    buffering = true;
    grace_task = true;
  }

  -- `given_up_at - _RECENT_WINDOW_S <= sent_at < given_up_at`
  abbrev pub in_window : ℕ → ℕ × M → Bool
  in_window given_up_at (sent_at, m) =
      leb given_up_at (sent_at + recent_window_ms) && ltb sent_at given_up_at

  abbrev pub replayed : Bool → ℕ → List (ℕ × M) → List (Written M)
  replayed true given_up_at sent = map (λ x. again x.1) (keep_if (in_window given_up_at) sent)
  replayed false given_up_at sent = []

  -- `rebind` up to its first write, on a new socket.
  unfoldable pub rebind : Bool → Outbox M → Outbox M
  rebind replay_recent s = record s {
    grace_task = false;
    buffering = true;
    is_detached = false;
    was_resumed = true;
    alive = true;
    catching =
        some
          (replayed replay_recent (if s.is_detached then s.detached_at else s.clock_ms) s.recent);
  }

  -- The song that the end of `rebind` writes again, when one is live.
  abbrev pub write_song : Option M → Outbox M → Outbox M
  write_song none s = s
  write_song (some song) s = write_frame (again song) s

  -- One write of the rebind under way, the next round of its loop, or its end; a write that raises
  -- ends it.
  abbrev pub catch_with : Option (List (Written M)) → List M → Option M → Outbox M → Outbox M
  catch_with none buffered song s = s
  catch_with (some (f ∷ fs)) buffered song s =
      if s.alive
      then record s { written = s.written ++ (f ∷ []); catching = some fs }
      else record s { catching = none; buffering = false }
  catch_with (some []) (m ∷ ms) song s = record s {
    catching = some (map fresh (m ∷ ms));
    detached_buffer = [];
  }
  catch_with (some []) [] song s = write_song song (record s { catching = none; buffering = false })

  unfoldable pub catch_up : Option M → Outbox M → Outbox M
  catch_up song s = catch_with s.catching s.detached_buffer song s

  abbrev pub is_catching : Option (List (Written M)) → Bool
  is_catching none = false
  is_catching (some fs) = true

-- What can happen, in any order. A connection's handler rebinds under the lock of the session's id and
-- detaches after its rebind has ended.
pub data OutboxEvent (M : Type 0) : Type 0 where
  time_passes : ℕ → OutboxEvent M
  emits : M → OutboxEvent M
  remembers : M → OutboxEvent M
  socket_dies : OutboxEvent M
  detaches : Bool → OutboxEvent M
  rebinds : Bool → OutboxEvent M
  goes_on : Option M → OutboxEvent M

module _ {M : Type 0} where
  unfoldable pub outbox_step : OutboxEvent M → Outbox M → Outbox M
  outbox_step (time_passes ms) s = record s { clock_ms = s.clock_ms + ms }
  outbox_step (emits m) s = send_frame m s
  outbox_step (remembers m) s = remember m s
  outbox_step socket_dies s = record s { alive = false }
  outbox_step (detaches closed) s = if is_catching s.catching then s else detach closed s
  outbox_step (rebinds replay) s = if is_catching s.catching then s else rebind replay s
  outbox_step (goes_on song) s = catch_up song s

  unfoldable pub outbox_run : List (OutboxEvent M) → Outbox M → Outbox M
  outbox_run [] s = s
  outbox_run (e ∷ es) s = outbox_run es (outbox_step e s)
