-- ===== src/Session/Written.antt =====
-- api/src/api/session.py: what becomes of the transcript writes.
use tenir.Prelude.{
  ◌==◌, ◌||◌, take, Option, none, some, nat_key, list_key, option_key, arith, ℕ, zero, suc, ◌≡◌,
  ◌≢◌, ◌⊎◌, inl, inr, refl, sym, ap, ◌∙◌, Bool, true, false, List, [], ◌∷◌, ◌++◌, map, any,
  append_assoc, append-nil, if◌then◌else◌, Bool-cases, not, length,
}
use tenir.Prelude.Text.{Text, codes}
use tenir.Session.Writes.{
  is_database_unavailable, WriteError, ErrorClass, database_unavailable, schema_lock_timeout,
  pool_timeout, operational_error, other_error, is_connection_sqlstate, is_unavailable_as, Outcome,
  stored, raised, is_retryable_write, Writer, store_write, call_flush, hold, pop_write, flush_turn,
  flush_writes, WriterEvent, queues, flush_called, call_ends, writer_step, writer_run,
}

cons-not_nil {ℓ} : {A : Type ℓ} {x : A} {xs : List A} → x ∷ xs ≢ []
cons-not_nil h = cc

snoc-not_nil : (fs : List Bool) (f : Bool) → fs ++ (f ∷ []) ≢ []
snoc-not_nil [] f = cons-not_nil
snoc-not_nil (g ∷ fs) f = cons-not_nil

started-not_nil :
    (fs : List Bool) (b : Bool) → any (λ f. f) fs ≡ b → (if b then fs else fs ++ (true ∷ [])) ≢ []
started-not_nil fs false e = snoc-not_nil fs true
started-not_nil [] true e = absurd (cc)
started-not_nil (f ∷ fs) true e = cons-not_nil

-- The database cannot be reached, was stopped, or ended a statement that took too long.
unfoldable pub is_outage : ErrorClass → Option Text → Bool
is_outage database_unavailable state = true
is_outage schema_lock_timeout state = true
is_outage pool_timeout state = true
is_outage operational_error none = true
is_outage operational_error (some state) =
    any (λ code. state == code)
      (codes "57P01" ∷ (codes "57P02" ∷ (codes "57P03" ∷ (codes "57014" ∷ []))))
    || take 2 state == codes "08"
is_outage other_error none = false
is_outage other_error (some state) = state == codes "57014"

is_unavailable_or_timeout :
    (c : ErrorClass) (state : Option Text)
    → (is_unavailable_as c state || state == some (codes "57014")) ≡ is_outage c state
unfolding is_outage is_connection_sqlstate
is_unavailable_or_timeout database_unavailable state = refl
is_unavailable_or_timeout schema_lock_timeout state = refl
is_unavailable_or_timeout pool_timeout state = refl
is_unavailable_or_timeout operational_error none = refl
is_unavailable_or_timeout operational_error (some state) = ground arith
is_unavailable_or_timeout other_error none = refl
is_unavailable_or_timeout other_error (some state) = refl

is_retryable_write_lem :
    (exc : WriteError) → is_retryable_write exc ≡ is_outage exc.error_class exc.sqlstate
unfolding is_retryable_write is_database_unavailable
is_retryable_write_lem exc = is_unavailable_or_timeout exc.error_class exc.sqlstate

-- The call settled its write: it stored it, or ended in an error other than an outage.
abbrev pub is_settled : Outcome → Bool
is_settled stored = true
is_settled (raised exc) = not (is_outage exc.error_class exc.sqlstate)

module _ {W : Type 0} where
  -- The writes that the events queue.
  unfoldable pub queued : List (WriterEvent W) → List W
  queued [] = []
  queued (queues w ∷ es) = w ∷ queued es
  queued (flush_called ∷ es) = queued es
  queued (call_ends o ∷ es) = queued es

  abbrev pub settled_of : W × Outcome → List W
  settled_of (w, o) = if is_settled o then w ∷ [] else []

  unfoldable pub settled : List (W × Outcome) → List W
  settled [] = []
  settled (c ∷ cs) = settled_of c ++ settled cs

  settled-snoc :
      (cs : List (W × Outcome)) (c : W × Outcome)
      → settled (cs ++ (c ∷ [])) ≡ settled cs ++ settled_of c
  unfolding settled
  settled-snoc [] c = append-nil (settled_of c)
  settled-snoc (b ∷ cs) c =
      ap (λ x. settled_of b ++ x) (settled-snoc cs c)
      ∙ sym (append_assoc (settled_of b) (settled cs) (settled_of c))

  -- The writes whose call settled them, then what waits on the queue.
  abbrev pub line : Writer W → List W
  line s = settled s.calls ++ s.unsaved_writes

  call_settles :
      (cs : List (W × Outcome)) (w : W) (ws : List W) (o : Outcome)
      → is_settled o ≡ true
      → settled (cs ++ ((w, o) ∷ [])) ++ ws ≡ settled cs ++ (w ∷ ws)
  call_settles cs w ws o done =
      ap (λ x. x ++ ws)
        (settled-snoc cs (w, o) ∙ ap (λ b. settled cs ++ (if b then w ∷ [] else [])) done)
      ∙ append_assoc (settled cs) (w ∷ []) ws

  call_keeps :
      (cs : List (W × Outcome)) (w : W) (o : Outcome)
      → is_settled o ≡ false
      → settled (cs ++ ((w, o) ∷ [])) ≡ settled cs
  call_keeps cs w o kept =
      settled-snoc cs (w, o)
      ∙ ap (λ b. settled cs ++ (if b then w ∷ [] else [])) kept
      ∙ append-nil (settled cs)

  flush_turn-line :
      (o : Outcome) (fs : List Bool) (ws : List W) (s : Writer W)
      → s.unsaved_writes ≡ ws
      → line (flush_turn o fs ws s) ≡ line s
  unfolding hold pop_write
  flush_turn-line o [] ws s e = refl
  flush_turn-line o (f ∷ rest) [] s e = refl
  flush_turn-line stored (f ∷ rest) (w ∷ ws) s e =
      call_settles s.calls w ws stored refl ∙ ap (λ x. settled s.calls ++ x) (sym e)
  flush_turn-line (raised exc) (f ∷ rest) (w ∷ ws) s e =
      elim (Bool-cases (is_outage exc.error_class exc.sqlstate)) [
        | inl keep ↦
            rw (is_retryable_write_lem exc, keep)
              (ap (λ x. x ++ s.unsaved_writes) (call_keeps s.calls w (raised exc) (rw (keep) refl)))
        | inr done ↦
            rw (is_retryable_write_lem exc, done)
              (call_settles s.calls w ws (raised exc) (rw (done) refl)
                ∙ ap (λ x. settled s.calls ++ x) (sym e))
      ]

  -- The writes whose call stored them or ended in an error other than an outage, and then those that
  -- wait, are all that were queued, in order: a write whose call ended in an outage stays the first in
  -- the queue. An outage is a database that cannot be reached, was stopped, or ended a statement that
  -- took too long.
  pub writer_run-line :
      (es : List (WriterEvent W)) (s : Writer W) → line (writer_run es s) ≡ line s ++ queued es
  unfolding writer_run writer_step store_write call_flush flush_writes queued
  writer_run-line [] s = sym (append-nil _)
  writer_run-line (queues w ∷ es) s =
      writer_run-line es _
      ∙ ap (λ x. x ++ queued es) (sym (append_assoc (settled s.calls) s.unsaved_writes (w ∷ [])))
      ∙ append_assoc (line s) (w ∷ []) (queued es)
  writer_run-line (flush_called ∷ es) s = writer_run-line es _
  writer_run-line (call_ends o ∷ es) s =
      writer_run-line es _
      ∙ ap (λ x. x ++ queued es) (flush_turn-line o s.flushes s.unsaved_writes s refl)

  -- A write waits only while a flush is under way, or after one that ended in a retryable failure.
  abbrev pub IsTended : Writer W → Type 0
  IsTended s = (s.unsaved_writes ≡ []) ⊎ ((s.flushes ≢ []) ⊎ (s.held ≡ true))

  flush_turn-IsTended :
      (o : Outcome) (fs : List Bool) (ws : List W) (s : Writer W)
      → s.flushes ≡ fs
      → s.unsaved_writes ≡ ws
      → IsTended s
      → IsTended (flush_turn o fs ws s)
  unfolding hold pop_write
  flush_turn-IsTended o [] ws s e f tended = tended
  flush_turn-IsTended o (f ∷ rest) [] s e g tended = inl g
  flush_turn-IsTended stored (f ∷ rest) (w ∷ ws) s e g tended =
      inr (inl (λ h. absurd (cons-not_nil (sym e ∙ h))))
  flush_turn-IsTended (raised exc) (f ∷ rest) (w ∷ ws) s e g tended =
      elim (Bool-cases (is_retryable_write exc)) [
        | inl keep ↦ rw (keep) (inr (inr refl))
        | inr done ↦ rw (done) (inr (inl (λ h. absurd (cons-not_nil (sym e ∙ h)))))
      ]

  pub writer_run-IsTended :
      (es : List (WriterEvent W)) (s : Writer W) → IsTended s → IsTended (writer_run es s)
  unfolding writer_run writer_step store_write call_flush flush_writes
  writer_run-IsTended [] s tended = tended
  writer_run-IsTended (queues w ∷ es) s tended =
      writer_run-IsTended es _ (inr (inl (started-not_nil s.flushes _ refl)))
  writer_run-IsTended (flush_called ∷ es) s tended =
      writer_run-IsTended es _ (inr (inl (snoc-not_nil s.flushes false)))
  writer_run-IsTended (call_ends o ∷ es) s tended =
      writer_run-IsTended es _ (flush_turn-IsTended o s.flushes s.unsaved_writes s refl refl tended)

  abbrev pub healthy : ℕ → List (WriterEvent W)
  healthy zero = []
  healthy (suc n) = call_ends stored ∷ healthy n

  -- A flush that is under way stores everything that waits, once the database answers.
  pub healthy-stores :
      (ws : List W) (f : Bool) (rest : List Bool) (s : Writer W)
      → s.flushes ≡ f ∷ rest
      → s.unsaved_writes ≡ ws
      → let s' = writer_run (healthy (length ws)) s in
        (s'.unsaved_writes ≡ []) × (s'.calls ≡ s.calls ++ map (λ w. (w, stored)) ws)
  unfolding writer_run writer_step flush_writes pop_write
  healthy-stores [] f rest s e g = (g, sym (append-nil _))
  healthy-stores (w ∷ ws) f rest s e g =
      rw (e, g)
        (let s₁ = pop_write ws (record s {
          unsaved_writes = w ∷ ws;
          flushes = f ∷ rest;
          calls = s.calls ++ ((w, stored) ∷ []);
        }) in
          let (empty, all) = healthy-stores ws f rest s₁ refl refl in
          (empty, all ∙ append_assoc s.calls ((w, stored) ∷ []) (map (λ x. (x, stored)) ws)))
