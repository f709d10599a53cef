-- ===== src/Session/Delivered.antt =====
-- api/src/api/session.py: in which order the frames of a session reach its sockets.
use mathlib.Core.List.Sublist
use mathlib.Core.List.{Sublist, sublist-append_left, sublist-append_right}
use tenir.Prelude.{
  ℕ, ◌≤◌, length, ◌≡◌, refl, sym, ap, subst, ◌∙◌, Bool, true, false, ◌||◌, Option, none, some, List,
  [], ◌∷◌, ◌++◌, map, if◌then◌else◌, append_assoc, append-nil, by_test, arith,
}
use tenir.Session.Outbox.{
  Written, fresh, again, Outbox, buffer_send, write_frame, send_frame, remember, replayed, detach,
  rebind, write_song, catch_with, catch_up, is_catching, OutboxEvent, time_passes, emits, remembers,
  socket_dies, detaches, rebinds, goes_on, outbox_step, outbox_run,
}
use tenir.Session.Frames.{
  firsts, firsts-append, firsts-map, firsts-replayed, rest_of, emitted_of, emitted, IsOrdered,
  join_assoc, capped-Sublist, length-capped,
}

module _ {M : Type 0} where
  buffer_send-IsOrdered :
      (m : M) (s : Outbox M) (sent : List M)
      → s.buffering ≡ true
      → IsOrdered sent s
      → IsOrdered (sent ++ (m ∷ [])) (buffer_send m s)
  unfolding buffer_send
  buffer_send-IsOrdered m s sent b h = record {
    order =
        Sublist.trans
          (Sublist.append (Sublist.refl (firsts s.written)) (
            Sublist.append (Sublist.refl (firsts (rest_of s.catching)))
              (capped-Sublist (s.detached_buffer ++ (m ∷ [])))))
          (subst (λ x. Sublist x (sent ++ (m ∷ [])))
            (sym (
              join_assoc (firsts s.written) (firsts (rest_of s.catching)) s.detached_buffer
                (m ∷ [])))
            (Sublist.append h.order (Sublist.refl (m ∷ []))));
    bounded = length-capped (s.detached_buffer ++ (m ∷ []));
    taken_bounded = h.taken_bounded;
    quiet = λ e. absurd (cc);
    settled = λ e. absurd (cc);
  }

  later-IsOrdered :
      (m : M) (s : Outbox M) (sent : List M) → IsOrdered sent s → IsOrdered (sent ++ (m ∷ [])) s
  later-IsOrdered m s sent h = record {
    order = Sublist.trans h.order (sublist-append_left sent (m ∷ []));
    bounded = h.bounded;
    taken_bounded = h.taken_bounded;
    quiet = h.quiet;
    settled = h.settled;
  }

  pub written_next :
      (written : List (Written M)) (m : M) (catching : Option (List (Written M))) (buffer : List M)
      → catching ≡ none
      → buffer ≡ []
      → firsts (written ++ (fresh m ∷ [])) ++ (firsts (rest_of catching) ++ buffer)
        ≡ (firsts written ++ (firsts (rest_of catching) ++ buffer)) ++ (m ∷ [])
  unfolding firsts
  written_next written m catching buffer e f =
      rw (e, f, append-nil (firsts (written ++ (fresh m ∷ []))), append-nil (firsts written))
        (firsts-append written (fresh m ∷ []))

  send_frame-IsOrdered :
      (m : M) (s : Outbox M) (sent : List M)
      → IsOrdered sent s
      → IsOrdered (sent ++ (m ∷ [])) (send_frame m s)
  unfolding send_frame write_frame
  send_frame-IsOrdered m s sent h =
      by_test (IsOrdered (sent ++ (m ∷ []))) s.buffering (λ b. buffer_send-IsOrdered m s sent b h)
        (λ d.
          by_test (IsOrdered (sent ++ (m ∷ []))) s.alive
            (λ a. record {
              order =
                  subst (λ x. Sublist x (sent ++ (m ∷ [])))
                    (sym (
                      written_next s.written m s.catching s.detached_buffer (h.settled d)
                        (h.quiet d a)))
                    (Sublist.append h.order (Sublist.refl (m ∷ [])));
              bounded = h.bounded;
              taken_bounded = h.taken_bounded;
              quiet = h.quiet;
              settled = h.settled;
            })
            (λ dead. later-IsOrdered m s sent h))

  pub rest-not_catching :
      (o : Option (List (Written M))) → is_catching o ≡ false → firsts (rest_of o) ≡ []
  unfolding firsts
  rest-not_catching none e = refl
  rest-not_catching (some fs) e = absurd (cc)

  replayed_bound :
      (b : Bool) (at : ℕ) (sent : List (ℕ × M)) → length (firsts (replayed b at sent)) ≤ 500
  replayed_bound b at sent = rw (firsts-replayed b at sent) (omega arith)

  rebind-IsOrdered :
      (b : Bool) (s : Outbox M) (sent : List M)
      → is_catching s.catching ≡ false
      → IsOrdered sent s
      → IsOrdered sent (rebind b s)
  unfolding rebind
  rebind-IsOrdered b s sent idle h = record {
    order = rw (firsts-replayed b (if s.is_detached then s.detached_at else s.clock_ms) s.recent) (
        subst (λ x. Sublist (firsts s.written ++ (x ++ s.detached_buffer)) sent)
          (rest-not_catching s.catching idle) h.order);
    bounded = h.bounded;
    taken_bounded = replayed_bound b (if s.is_detached then s.detached_at else s.clock_ms) s.recent;
    quiet = λ e. absurd (cc);
    settled = λ e. absurd (cc);
  }

  rest_bound :
      (f : Written M) (fs : List (Written M))
      → length (firsts (f ∷ fs)) ≤ 500
      → length (firsts fs) ≤ 500
  unfolding firsts
  rest_bound (fresh m) fs h = omega (arith, h)
  rest_bound (again m) fs h = h

  -- The rest of what a rebind took is lost when its socket dies.
  dropped_order :
      (written ps buffer sent : List M)
      → Sublist (written ++ (ps ++ buffer)) sent
      → Sublist (written ++ buffer) sent
  dropped_order written ps buffer sent h =
      Sublist.trans (Sublist.append (Sublist.refl written) (sublist-append_right ps buffer)) h

  pub catching_next :
      (written : List (Written M)) (f : Written M) (fs : List (Written M)) (buffer : List M)
      → firsts (written ++ (f ∷ [])) ++ (firsts fs ++ buffer)
        ≡ firsts written ++ (firsts (f ∷ fs) ++ buffer)
  unfolding firsts
  catching_next written (fresh m) fs buffer =
      ap (λ x. x ++ (firsts fs ++ buffer)) (firsts-append written (fresh m ∷ []))
      ∙ append_assoc (firsts written) (m ∷ []) (firsts fs ++ buffer)
  catching_next written (again m) fs buffer =
      ap (λ x. x ++ (firsts fs ++ buffer))
        (firsts-append written (again m ∷ []) ∙ append-nil (firsts written))

  write_song-IsOrdered :
      (song : Option M) (s : Outbox M) (sent : List M)
      → IsOrdered sent s
      → IsOrdered sent (write_song song s)
  unfolding write_frame firsts
  write_song-IsOrdered none s sent h = h
  write_song-IsOrdered (some song) s sent h =
      by_test (IsOrdered sent) s.alive
        (λ a. record {
          order =
              subst (λ x. Sublist (x ++ (firsts (rest_of s.catching) ++ s.detached_buffer)) sent)
                (sym (firsts-append s.written (again song ∷ []) ∙ append-nil (firsts s.written)))
                h.order;
          bounded = h.bounded;
          taken_bounded = h.taken_bounded;
          quiet = h.quiet;
          settled = h.settled;
        })
        (λ dead. h)

  catch_with-IsOrdered :
      (o : Option (List (Written M))) (buffered : List M) (song : Option M) (s : Outbox M)
      (sent : List M)
      → s.catching ≡ o
      → s.detached_buffer ≡ buffered
      → IsOrdered sent s
      → IsOrdered sent (catch_with o buffered song s)
  unfolding firsts
  catch_with-IsOrdered none buffered song s sent c d h = h
  catch_with-IsOrdered (some (f ∷ fs)) buffered song s sent c d h =
      let order : Sublist (firsts s.written ++ (firsts (f ∷ fs) ++ s.detached_buffer)) sent =
        subst (λ x. Sublist (firsts s.written ++ (firsts (rest_of x) ++ s.detached_buffer)) sent) c
          h.order in
      by_test (IsOrdered sent) s.alive
        (λ a. record {
          order =
              subst (λ x. Sublist x sent) (sym (catching_next s.written f fs s.detached_buffer))
                order;
          bounded = h.bounded;
          taken_bounded =
              rest_bound f fs (subst (λ x. length (firsts (rest_of x)) ≤ 500) c h.taken_bounded);
          quiet = h.quiet;
          settled = λ e. absurd (cc (h.settled e, c));
        })
        (λ dead. record {
          order = dropped_order (firsts s.written) (firsts (f ∷ fs)) s.detached_buffer sent order;
          bounded = h.bounded;
          taken_bounded = omega arith;
          quiet = λ e a. absurd (cc);
          settled = λ e. refl;
        })
  catch_with-IsOrdered (some []) (m ∷ ms) song s sent c d h = record {
    order =
        subst (λ x. Sublist (firsts s.written ++ x) sent)
          (sym (append-nil (m ∷ firsts (map fresh ms)) ∙ ap (◌∷◌ m) (firsts-map ms)))
          (subst (λ x. Sublist (firsts s.written ++ x) sent) d
            (subst
              (λ x. Sublist (firsts s.written ++ (firsts (rest_of x) ++ s.detached_buffer)) sent) c
              h.order));
    bounded = omega arith;
    taken_bounded = subst (λ x. length x ≤ 500) (d ∙ sym (ap (◌∷◌ m) (firsts-map ms))) h.bounded;
    quiet = λ e a. refl;
    settled = λ e. absurd (cc (h.settled e, c));
  }
  catch_with-IsOrdered (some []) [] song s sent c d h = write_song-IsOrdered song _ sent (record {
    order =
        subst (λ x. Sublist (firsts s.written ++ (firsts (rest_of x) ++ s.detached_buffer)) sent) c
          h.order;
    bounded = h.bounded;
    taken_bounded = omega arith;
    quiet = λ e a. d;
    settled = λ e. refl;
  })

  detach-IsOrdered :
      (closed : Bool) (s : Outbox M) (sent : List M)
      → IsOrdered sent s
      → IsOrdered sent (detach closed s)
  unfolding detach
  detach-IsOrdered closed s sent h =
      by_test (IsOrdered sent) (closed || s.is_detached) (λ off. h)
        (λ on. record {
          order = h.order;
          bounded = h.bounded;
          taken_bounded = h.taken_bounded;
          quiet = λ e. absurd (cc);
          settled = λ e. absurd (cc);
        })

  outbox_step-IsOrdered :
      (e : OutboxEvent M) (s : Outbox M) (sent : List M)
      → IsOrdered sent s
      → IsOrdered (sent ++ emitted_of e) (outbox_step e s)
  unfolding outbox_step remember catch_up
  outbox_step-IsOrdered (time_passes ms) s sent h = rw (append-nil sent) (record {
    order = h.order;
    bounded = h.bounded;
    taken_bounded = h.taken_bounded;
    quiet = h.quiet;
    settled = h.settled;
  })
  outbox_step-IsOrdered (emits m) s sent h = send_frame-IsOrdered m s sent h
  outbox_step-IsOrdered (remembers m) s sent h = rw (append-nil sent) (record {
    order = h.order;
    bounded = h.bounded;
    taken_bounded = h.taken_bounded;
    quiet = h.quiet;
    settled = h.settled;
  })
  outbox_step-IsOrdered socket_dies s sent h = rw (append-nil sent) (record {
    order = h.order;
    bounded = h.bounded;
    taken_bounded = h.taken_bounded;
    quiet = λ e a. absurd (cc);
    settled = h.settled;
  })
  outbox_step-IsOrdered (detaches closed) s sent h = rw (append-nil sent) (
      by_test (IsOrdered sent) (is_catching s.catching) (λ busy. h)
        (λ idle. detach-IsOrdered closed s sent h))
  outbox_step-IsOrdered (rebinds replay) s sent h = rw (append-nil sent) (
      by_test (IsOrdered sent) (is_catching s.catching) (λ busy. h)
        (λ idle. rebind-IsOrdered replay s sent idle h))
  outbox_step-IsOrdered (goes_on song) s sent h =
      rw (append-nil sent)
        (catch_with-IsOrdered s.catching s.detached_buffer song s sent refl refl h)

  -- Over any connections, drops and resumes, no frame overtakes an older one or is written twice other
  -- than as a repeat; at most 500 frames wait in the buffer, and at most 500 more in what a resume has
  -- taken of it and is writing.
  pub outbox_run-IsOrdered :
      (es : List (OutboxEvent M)) (s : Outbox M) (sent : List M)
      → IsOrdered sent s
      → IsOrdered (sent ++ emitted es) (outbox_run es s)
  unfolding outbox_run emitted
  outbox_run-IsOrdered [] s sent h = rw (append-nil sent) h
  outbox_run-IsOrdered (e ∷ es) s sent h =
      subst (λ x. IsOrdered x (outbox_run (e ∷ es) s))
        (append_assoc sent (emitted_of e) (emitted es))
        (outbox_run-IsOrdered es (outbox_step e s) (sent ++ emitted_of e)
          (outbox_step-IsOrdered e s sent h))
