-- ===== src/Tests/Outbox.antt =====
-- Runs of the frames of a session, of api/src/api/session.py.
use mathlib.Core.List.{nil-sublist}
use tenir.Prelude.{ℕ, ◌≤◌, arith, ◌≡◌, refl, true, false, none, some, List, [], ◌∷◌, length}
use tenir.Session.Outbox.{
  Outbox, fresh, again, buffer_send, write_frame, send_frame, remember, detach, rebind, catch_up,
  OutboxEvent, emits, remembers, socket_dies, detaches, rebinds, goes_on, outbox_step, outbox_run,
}
use tenir.Session.Outbox
use tenir.Session.Frames.{in_order, firsts, emitted, IsOrdered}
use tenir.Session.Delivered.{outbox_run-IsOrdered}
use tenir.Session.Complete.{IsComplete, outbox_run-IsComplete}

program : Unit {0}
unfolding buffer_send write_frame send_frame remember detach rebind catch_up outbox_step outbox_run
    firsts emitted
program = tt

abbrev connected : Outbox ℕ
connected = record {
  clock_ms = 90000;
  is_detached = false;
  detached_at = 0;
  grace_task = false;
  was_resumed = false;
  buffering = false;
  alive = true;
  detached_buffer = [];
  recent = [];
  catching = none;
  written = [];
}

-- Frame 1 may not have arrived before the drop, 2 waits for the resume, and 3 comes in during it.
abbrev resume : List (OutboxEvent ℕ)
resume =
    remembers 1
    ∷ (emits 1
        ∷ (Outbox.time_passes 5
            ∷ (detaches false
                ∷ (emits 2
                    ∷ (rebinds true
                        ∷ (goes_on none
                            ∷ (emits 3
                                ∷ (goes_on none
                                    ∷ (goes_on none
                                        ∷ (goes_on none
                                            ∷ (goes_on (some 9) ∷ (emits 4 ∷ []))))))))))))

resume_written :
    (outbox_run resume connected).written
    ≡ fresh 1 ∷ (again 1 ∷ (fresh 2 ∷ (fresh 3 ∷ (again 9 ∷ (fresh 4 ∷ [])))))
unfolding program
resume_written = refl

connected-IsOrdered : IsOrdered [] connected
unfolding program
connected-IsOrdered = record {
  order = nil-sublist [];
  bounded = omega arith;
  taken_bounded = omega arith;
  quiet = λ e a. refl;
  settled = λ e. refl;
}

outbox_run-IsOrdered_example : IsOrdered (emitted resume) (outbox_run resume connected)
outbox_run-IsOrdered_example = outbox_run-IsOrdered resume connected [] connected-IsOrdered

connected-IsComplete : IsComplete [] connected
unfolding program
connected-IsComplete = record { all = refl; up = refl; clear = λ e. refl; at_end = λ e. refl }

resume_fits : length (emitted resume) ≤ 500
unfolding program
resume_fits = omega arith

outbox_run-IsComplete_example : IsComplete (emitted resume) (outbox_run resume connected)
outbox_run-IsComplete_example =
    outbox_run-IsComplete resume connected []
      (tt, (tt, (tt, (tt, (tt, (tt, (tt, (tt, (tt, (tt, (tt, (tt, (tt, tt))))))))))))) resume_fits
      connected-IsComplete

-- A socket that dies while it catches up takes the frames of its round with it.
abbrev broken_resume : List (OutboxEvent ℕ)
broken_resume =
    detaches false
    ∷ (emits 1
        ∷ (emits 2
            ∷ (rebinds false
                ∷ (goes_on none ∷ (goes_on none ∷ (socket_dies ∷ (goes_on none ∷ [])))))))

broken_resume_loses : in_order (outbox_run broken_resume connected) ≡ 1 ∷ []
unfolding program
broken_resume_loses = refl
