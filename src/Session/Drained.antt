-- ===== src/Session/Drained.antt =====
-- api/src/api/session.py: what the drain keeps of the finals, and when it says that captions lag.
use tenir.Prelude.{refl, subst, Bool, List, [], ◌∷◌, ◌++◌, ltb, append_assoc, append-nil, arith}
use tenir.Prelude.Text.{Text}
use tenir.Session.Translate.{Final}
use tenir.Session.Drain.{
  sends_partial, touches_hold, Drain, date_audio, final_age, arrivals_left, drain_final,
  drain_partial, DrainEvent, waits, pushes, final_comes, partial_comes, drain_step, drain_run,
  stale_final_ms,
}
use tenir.Session.Statuses.{
  IsDrained, aside, show_final-IsDrained, track_caption_lag-IsDrained, finals_of, finals_in,
}

drain_final-IsDrained :
    (f shown : List Final) (final : Final) (behind : Bool) (s : Drain)
    → IsDrained f shown shown s
    → (shown' : List Final) × IsDrained
        (f ++ (final ∷ []))
        shown'
        shown'
        (drain_final final behind s)
unfolding drain_final
drain_final-IsDrained f shown final behind s h =
    let age = final_age final.end_ms s.arrivals s.drain_ms in
    (
      _,
      show_final-IsDrained f shown shown (ltb stale_final_ms age) final _ (
          track_caption_lag-IsDrained f shown shown age behind
            (record s { arrivals = arrivals_left final.end_ms s.arrivals })
            (record {
              all_stored = h.all_stored;
              all_sent = h.all_sent;
              all_considered = h.all_considered;
              flag = h.flag;
              late = h.late;
            })),
    )

drain_partial-IsDrained :
    (f shown : List Final) (text : Text) (s : Drain)
    → IsDrained f shown shown s
    → IsDrained f shown shown (drain_partial text s)
drain_partial-IsDrained f shown [] s h = h
drain_partial-IsDrained f shown (c ∷ cs) s h =
    aside f shown shown touches_hold _ (λ known. refl) refl refl refl
      (aside f shown shown (sends_partial (c ∷ cs)) s (λ known. refl) refl refl refl h)

drain_step-IsDrained :
    (f shown : List Final) (e : DrainEvent) (s : Drain)
    → IsDrained f shown shown s
    → (shown' : List Final) × IsDrained (f ++ finals_of e) shown' shown' (drain_step e s)
unfolding drain_step date_audio
drain_step-IsDrained f shown (waits ms) s h = rw (append-nil f) (
  shown,
  record {
    all_stored = h.all_stored;
    all_sent = h.all_sent;
    all_considered = h.all_considered;
    flag = h.flag;
    late = omega (arith, h.late);
  },
)
drain_step-IsDrained f shown (pushes position) s h = rw (append-nil f) (
  shown,
  record {
    all_stored = h.all_stored;
    all_sent = h.all_sent;
    all_considered = h.all_considered;
    flag = h.flag;
    late = h.late;
  },
)
drain_step-IsDrained f shown (final_comes final behind) s h =
    drain_final-IsDrained f shown final behind s h
drain_step-IsDrained f shown (partial_comes text) s h =
    rw (append-nil f) (shown, drain_partial-IsDrained f shown text s h)

-- Every final is stored once and in order, the finals sent are those considered for a translation and
-- a cue, and the statuses alternate, the lag ending ten seconds or more after it was announced.
pub drain_run-IsDrained :
    (es : List DrainEvent) (f shown : List Final) (s : Drain)
    → IsDrained f shown shown s
    → (shown' : List Final) × IsDrained (f ++ finals_in es) shown' shown' (drain_run es s)
unfolding drain_run finals_in
drain_run-IsDrained [] f shown s h = rw (append-nil f) (shown, h)
drain_run-IsDrained (e ∷ es) f shown s h =
    let (shown', h') = drain_step-IsDrained f shown e s h in
    subst (λ x. (shown' : List Final) × IsDrained x shown' shown' (drain_run (e ∷ es) s))
      (append_assoc f (finals_of e) (finals_in es))
      (drain_run-IsDrained es (f ++ finals_of e) shown' (drain_step e s) h')
