-- ===== src/Tests/Drain.antt =====
-- Runs of the drain of a session's results, of api/src/api/session.py.
use tenir.Prelude.{ℕ, ◌≡◌, refl, true, false, none, List, [], ◌∷◌, arith}
use tenir.Prelude.Text.{codes}
use tenir.Session.Translate.{Final}
use tenir.Session.Drain.{
  Drain, says_status, remembers_final, sends_final, stores_segment, considers, date_audio,
  final_age, arrivals_left, track_caption_lag, drain_final, DrainEvent, waits, pushes, final_comes,
  drain_step, drain_run,
}
use tenir.Session.Statuses.{gather, after_effects, finals_in, IsDrained}
use tenir.Session.Drained.{drain_run-IsDrained}
use tenir.Session.Dated.{reached_at, since, left_by, final_age-left_by}

program : Unit {0}
unfolding date_audio final_age arrivals_left track_caption_lag drain_final drain_step drain_run
    gather after_effects finals_in reached_at left_by
program = tt

abbrev new_drain : Drain
new_drain = record {
  drain_ms = 0;
  arrivals = [];
  captions_delayed = false;
  last_late_final = 0;
  effects = [];
}

abbrev final_at : ℕ → Final
final_at end_ms = record { text = codes "hello"; lang = none; start_ms = 0; end_ms = end_ms }

-- The first final is late, the second one too old to be shown, the third one on time.
abbrev results : List DrainEvent
results =
    pushes 1000
    ∷ (waits 5000
        ∷ (final_comes (final_at 900) false
            ∷ (pushes 2000
                ∷ (waits 12000
                    ∷ (final_comes (final_at 1900) false
                        ∷ (waits 10000
                            ∷ (pushes 3000 ∷ (final_comes (final_at 2900) false ∷ []))))))))

results_effects :
    (drain_run results new_drain).effects
    ≡ says_status 5000 true
      ∷ (remembers_final (final_at 900)
          ∷ (sends_final (final_at 900)
              ∷ (stores_segment (final_at 900)
                  ∷ (considers (final_at 900)
                      ∷ (stores_segment (final_at 1900)
                          ∷ (says_status 27000 false
                              ∷ (remembers_final (final_at 2900)
                                  ∷ (sends_final (final_at 2900)
                                      ∷ (stores_segment (final_at 2900)
                                          ∷ (considers (final_at 2900) ∷ []))))))))))
unfolding program
results_effects = refl

new_drain-IsDrained : IsDrained [] [] [] new_drain
unfolding program
new_drain-IsDrained = record {
  all_stored = refl;
  all_sent = refl;
  all_considered = refl;
  flag = (0, (refl, λ e. absurd (cc)));
  late = omega arith;
}

drain_run-IsDrained_example :
    (shown' : List Final) × IsDrained
      (finals_in results)
      shown'
      shown'
      (drain_run results new_drain)
drain_run-IsDrained_example = drain_run-IsDrained results [] [] new_drain new_drain-IsDrained

abbrev pushed : List (ℕ × ℕ)
pushed = (1000, 10) ∷ ((2000, 1010) ∷ ((3000, 2010) ∷ []))

final_age-left_by_example :
    final_age 1800 (left_by (900 ∷ (1500 ∷ [])) pushed) 4000 ≡ since (reached_at 1800 pushed) 4000
final_age-left_by_example =
    final_age-left_by (900 ∷ (1500 ∷ [])) 1800 4000 pushed (omega arith, (omega arith, tt))
      (omega arith, (omega arith, tt))

age : final_age 1800 (left_by (900 ∷ (1500 ∷ [])) pushed) 4000 ≡ 2990
unfolding program
age = refl
