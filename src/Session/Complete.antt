-- ===== src/Session/Complete.antt =====
-- api/src/api/session.py: no frame of a session is lost while sockets live and buffers hold.
use tenir.Prelude.{
  All, ◌≤◌, ◌≡◌, refl, sym, ap, subst, ◌∙◌, Bool, true, false, ◌||◌, Option, none, some, List, [],
  ◌∷◌, ◌++◌, map, ltb, length, if◌then◌else◌, append_assoc, append-nil, by_test, arith,
  length-append,
}
use tenir.Session.Outbox.{
  Written, fresh, again, Outbox, capped, buffer_send, write_frame, send_frame, remember, detach,
  rebind, write_song, catch_with, catch_up, is_catching, OutboxEvent, time_passes, emits, remembers,
  socket_dies, detaches, rebinds, goes_on, outbox_step, outbox_run, detached_buffer_max,
}
use tenir.Session.Frames.{
  firsts, firsts-append, firsts-map, firsts-replayed, rest_of, in_order, emitted_of, emitted,
  join_assoc,
}
use tenir.Session.Delivered.{written_next, rest-not_catching, catching_next}

module _ {M : Type 0} where
  abbrev pub IsUp : OutboxEvent M → Type 0
  IsUp socket_dies = false ≡ true
  IsUp e = Unit {0}

  pub record IsComplete (sent : List M) (s : Outbox M) : Type 0 where
    pub all : in_order s ≡ sent
    pub up : s.alive ≡ true
    pub clear : s.buffering ≡ false → s.detached_buffer ≡ []
    pub at_end : s.buffering ≡ false → s.catching ≡ none

  capped_fits : (ms : List M) → length ms ≤ 500 → capped ms ≡ ms
  capped_fits ms h =
      by_test (λ x. x ≡ ms) (ltb detached_buffer_max (length ms))
        (λ over. absurd (ground (arith, over, h))) (λ fits. refl)

  buffer_fits :
      (ws ps bs : List M) (m : M) (sent : List M)
      → ws ++ (ps ++ bs) ≡ sent
      → length (sent ++ (m ∷ [])) ≤ 500
      → length (bs ++ (m ∷ [])) ≤ 500
  buffer_fits ws ps bs m sent e h = omega (
    arith,
    h,
    ap length e,
    length-append ws (ps ++ bs),
    length-append ps bs,
    length-append bs (m ∷ []),
    length-append sent (m ∷ []),
  )

  send_frame-IsComplete :
      (m : M) (s : Outbox M) (sent : List M)
      → length (sent ++ (m ∷ [])) ≤ 500
      → IsComplete sent s
      → IsComplete (sent ++ (m ∷ [])) (send_frame m s)
  unfolding send_frame write_frame buffer_send
  send_frame-IsComplete m s sent few h =
      by_test (IsComplete (sent ++ (m ∷ []))) s.buffering
        (λ b. record {
          all =
              ap (λ x. firsts s.written ++ (firsts (rest_of s.catching) ++ x))
                (capped_fits _ (
                  buffer_fits (firsts s.written) (firsts (rest_of s.catching)) s.detached_buffer m
                    sent h.all few))
              ∙ join_assoc (firsts s.written) (firsts (rest_of s.catching)) s.detached_buffer
                  (m ∷ [])
              ∙ ap (λ x. x ++ (m ∷ [])) h.all;
          up = h.up;
          clear = λ e. absurd (cc);
          at_end = λ e. absurd (cc);
        })
        (λ d. rw (h.up) (record {
          all =
              written_next s.written m s.catching s.detached_buffer (h.at_end d) (h.clear d)
              ∙ ap (λ x. x ++ (m ∷ [])) h.all;
          up = refl;
          clear = h.clear;
          at_end = h.at_end;
        }))

  rebind-IsComplete :
      (b : Bool) (s : Outbox M) (sent : List M)
      → is_catching s.catching ≡ false
      → IsComplete sent s
      → IsComplete sent (rebind b s)
  unfolding rebind
  rebind-IsComplete b s sent idle h = record {
    all =
        ap (λ x. firsts s.written ++ (x ++ s.detached_buffer))
          (firsts-replayed b (if s.is_detached then s.detached_at else s.clock_ms) s.recent
            ∙ sym (rest-not_catching s.catching idle))
        ∙ h.all;
    up = refl;
    clear = λ e. absurd (cc);
    at_end = λ e. absurd (cc);
  }

  write_song-IsComplete :
      (song : Option M) (s : Outbox M) (sent : List M)
      → IsComplete sent s
      → IsComplete sent (write_song song s)
  unfolding write_frame firsts
  write_song-IsComplete none s sent h = h
  write_song-IsComplete (some song) s sent h =
      by_test (IsComplete sent) s.alive
        (λ a. record {
          all =
              ap (λ x. x ++ (firsts (rest_of s.catching) ++ s.detached_buffer))
                (firsts-append s.written (again song ∷ []) ∙ append-nil (firsts s.written))
              ∙ h.all;
          up = h.up;
          clear = h.clear;
          at_end = h.at_end;
        })
        (λ dead. h)

  catch_with-IsComplete :
      (o : Option (List (Written M))) (buffered : List M) (song : Option M) (s : Outbox M)
      (sent : List M)
      → s.catching ≡ o
      → s.detached_buffer ≡ buffered
      → IsComplete sent s
      → IsComplete sent (catch_with o buffered song s)
  unfolding firsts
  catch_with-IsComplete none buffered song s sent c d h = h
  catch_with-IsComplete (some (f ∷ fs)) buffered song s sent c d h = rw (h.up) (record {
    all =
        catching_next s.written f fs s.detached_buffer
        ∙ ap (λ x. firsts s.written ++ (firsts (rest_of x) ++ s.detached_buffer)) (sym c)
        ∙ h.all;
    up = refl;
    clear = h.clear;
    at_end = λ e. absurd (cc (h.at_end e, c));
  })
  catch_with-IsComplete (some []) (m ∷ ms) song s sent c d h = record {
    all =
        ap (λ x. firsts s.written ++ x)
          (append-nil (m ∷ firsts (map fresh ms)) ∙ ap (◌∷◌ m) (firsts-map ms) ∙ sym d)
        ∙ ap (λ x. firsts s.written ++ (firsts (rest_of x) ++ s.detached_buffer)) (sym c)
        ∙ h.all;
    up = h.up;
    clear = λ e. refl;
    at_end = λ e. absurd (cc (h.at_end e, c));
  }
  catch_with-IsComplete (some []) [] song s sent c d h = write_song-IsComplete song _ sent (record {
    all = ap (λ x. firsts s.written ++ (firsts (rest_of x) ++ s.detached_buffer)) (sym c) ∙ h.all;
    up = h.up;
    clear = λ e. d;
    at_end = λ e. refl;
  })

  detach-IsComplete :
      (closed : Bool) (s : Outbox M) (sent : List M)
      → IsComplete sent s
      → IsComplete sent (detach closed s)
  unfolding detach
  detach-IsComplete closed s sent h =
      by_test (IsComplete sent) (closed || s.is_detached) (λ off. h)
        (λ on. record {
          all = h.all;
          up = h.up;
          clear = λ e. absurd (cc);
          at_end = λ e. absurd (cc);
        })

  outbox_step-IsComplete :
      (e : OutboxEvent M) (s : Outbox M) (sent : List M)
      → IsUp e
      → length (sent ++ emitted_of e) ≤ 500
      → IsComplete sent s
      → IsComplete (sent ++ emitted_of e) (outbox_step e s)
  unfolding outbox_step remember catch_up
  outbox_step-IsComplete (time_passes ms) s sent up few h =
      rw (append-nil sent) (record { all = h.all; up = h.up; clear = h.clear; at_end = h.at_end })
  outbox_step-IsComplete (emits m) s sent up few h = send_frame-IsComplete m s sent few h
  outbox_step-IsComplete (remembers m) s sent up few h =
      rw (append-nil sent) (record { all = h.all; up = h.up; clear = h.clear; at_end = h.at_end })
  outbox_step-IsComplete socket_dies s sent up few h = absurd (cc)
  outbox_step-IsComplete (detaches closed) s sent up few h = rw (append-nil sent) (
      by_test (IsComplete sent) (is_catching s.catching) (λ busy. h)
        (λ idle. detach-IsComplete closed s sent h))
  outbox_step-IsComplete (rebinds replay) s sent up few h = rw (append-nil sent) (
      by_test (IsComplete sent) (is_catching s.catching) (λ busy. h)
        (λ idle. rebind-IsComplete replay s sent idle h))
  outbox_step-IsComplete (goes_on song) s sent up few h =
      rw (append-nil sent)
        (catch_with-IsComplete s.catching s.detached_buffer song s sent refl refl h)

  -- While at most 500 frames are emitted and no socket dies under a write, every frame is written, or
  -- waits, in order and once, over any drops and resumes.
  pub outbox_run-IsComplete :
      (es : List (OutboxEvent M)) (s : Outbox M) (sent : List M)
      → All IsUp es
      → length (sent ++ emitted es) ≤ 500
      → IsComplete sent s
      → IsComplete (sent ++ emitted es) (outbox_run es s)
  unfolding outbox_run emitted
  outbox_run-IsComplete [] s sent up few h = rw (append-nil sent) h
  outbox_run-IsComplete (e ∷ es) s sent up few h =
      let assoc = append_assoc sent (emitted_of e) (emitted es) in
      let few' : length ((sent ++ emitted_of e) ++ emitted es) ≤ 500 =
        subst (λ x. length x ≤ 500) (sym assoc) few in
      subst (λ x. IsComplete x (outbox_run (e ∷ es) s)) assoc
        (outbox_run-IsComplete es (outbox_step e s) (sent ++ emitted_of e) up.1 few' (
          outbox_step-IsComplete e s sent up.0
            (omega (arith, few', length-append (sent ++ emitted_of e) (emitted es))) h))
