-- ===== src/Audit/Buffered/Delivery.antt =====
-- Where the events of BufferedEmitter (internal/audit/buffered.go) go.
use kubernaut_apifrontend.Common.{
  ◌≡◌, refl, ap, sym, ◌∙◌, inl, inr, Bool, true, false, List, [], ◌∷◌, ◌++◌, arith, Bool-cases,
  if◌then◌else◌, length, ltb,
}
use mathlib.Core.List.{append_assoc, append-nil}
use kubernaut_apifrontend.Common.Int.{pos, ltb_ℤ}
use kubernaut_apifrontend.Audit.Buffered.{
  LoopState, running, draining, finished, BufferedEmitter, BufferConfig, Step, emit, emit_blocking,
  give_up, close, receive, tick, notice, drain, drained, new_buffered_emitter, has_room, send,
  flush, flush_some, flush_full, receive_one, drain_one, drain_end, see_done, while_running,
  while_draining, step, run,
}

module _ {Event : Type 0} where
  -- The event that a step puts into the channel.
  unfoldable pub taken : Step Event → BufferedEmitter Event → List Event
  taken (emit ev) s = if has_room s then ev ∷ [] else []
  taken (emit_blocking ev) s = if has_room s then ev ∷ [] else []
  taken _ s = []

  unfoldable pub accepted : List (Step Event) → BufferedEmitter Event → List Event
  accepted [] s = []
  accepted (x ∷ more) s = taken x s ++ accepted more (step x s)

  pub concat : List (List Event) → List Event
  concat [] = []
  concat (b ∷ more) = b ++ concat more

  -- Everything that is on its way, oldest first: with the writer, in the batch, in the channel.
  pub in_order : BufferedEmitter Event → List Event
  in_order s = concat s.given ++ (s.batch ++ s.buffer)

  concat-last : (bs : List (List Event)) (b : List Event) → concat (bs ++ b ∷ []) ≡ concat bs ++ b
  unfolding concat
  concat-last [] b = append-nil b
  concat-last (c ∷ bs) b = rw (concat-last bs b, append_assoc) refl

  flush-in_order :
      (written : Bool) (s : BufferedEmitter Event)
      → s.has_writer ≡ true
      → in_order (flush written s) ≡ in_order s
  unfolding flush in_order
  flush-in_order true s w = simp (w, concat-last, append_assoc) refl
  flush-in_order false s w = simp (w, concat-last, append_assoc) refl

  flush_full-in_order :
      (written : Bool) (s : BufferedEmitter Event)
      → s.has_writer ≡ true
      → in_order (flush_full written s) ≡ in_order s
  unfolding flush_full
  flush_full-in_order written s w = elim (Bool-cases (ltb_ℤ (pos (length s.batch)) s.batch_size)) [
    | inl short ↦ simp (short, flush_full) refl
    | inr full ↦ simp (full, flush_full) (flush-in_order written s w)
  ]

  flush_some-in_order :
      (written : Bool) (s : BufferedEmitter Event)
      → s.has_writer ≡ true
      → in_order (flush_some written s) ≡ in_order s
  unfolding flush_some
  flush_some-in_order written s w = elim (Bool-cases (ltb 0 (length s.batch))) [
    | inl some_events ↦ simp (some_events, flush_some) (flush-in_order written s w)
    | inr empty ↦ simp (empty, flush_some) refl
  ]

  shifted :
      (s : BufferedEmitter Event) (x : Event) (b : List Event)
      → s.buffer ≡ x ∷ b
      → in_order (record s { buffer = b; batch = s.batch ++ x ∷ [] }) ≡ in_order s
  unfolding in_order
  shifted s x b k = simp (k, append_assoc) refl

  receive_one-in_order :
      (written : Bool) (s : BufferedEmitter Event)
      → s.has_writer ≡ true
      → in_order (receive_one written s) ≡ in_order s
  unfolding receive_one
  receive_one-in_order written s w = go s.buffer refl
    where
      go : (b : List Event) → s.buffer ≡ b → in_order (receive_one written s) ≡ in_order s
      go [] k = simp (k, receive_one) refl
      go (x ∷ b) k =
          simp (k, receive_one)
            (flush_full-in_order written (record s { buffer = b; batch = s.batch ++ x ∷ [] }) w
              ∙ shifted s x b k)

  drain_one-in_order : (s : BufferedEmitter Event) → in_order (drain_one s) ≡ in_order s
  unfolding drain_one
  drain_one-in_order s = go s.buffer refl
    where
      go : (b : List Event) → s.buffer ≡ b → in_order (drain_one s) ≡ in_order s
      go [] k = simp (k, drain_one) refl
      go (x ∷ b) k = simp (k, drain_one) (shifted s x b k)

  drain_end-in_order :
      (written : Bool) (s : BufferedEmitter Event)
      → s.has_writer ≡ true
      → in_order (drain_end written s) ≡ in_order s
  unfolding drain_end
  drain_end-in_order written s w = elim (Bool-cases (ltb 0 (length s.buffer))) [
    | inl more ↦ simp (more, drain_end) refl
    | inr empty ↦ simp (empty, drain_end) (unfold in_order in flush_some-in_order written s w)
  ]

  see_done-in_order : (s : BufferedEmitter Event) → in_order (see_done s) ≡ in_order s
  unfolding see_done
  see_done-in_order s = elim (Bool-cases s.done) [
    | inl closed ↦ simp (closed, see_done) (unfold in_order in refl)
    | inr still ↦ simp (still, see_done) refl
  ]

  while_running-in_order :
      (f : BufferedEmitter Event → BufferedEmitter Event) (s : BufferedEmitter Event)
      → in_order (f s) ≡ in_order s
      → in_order (while_running f s) ≡ in_order s
  unfolding while_running
  while_running-in_order f s h = go s.loop refl
    where
      go : (l : LoopState) → s.loop ≡ l → in_order (while_running f s) ≡ in_order s
      go running k = simp (k, while_running) h
      go draining k = simp (k, while_running) refl
      go finished k = simp (k, while_running) refl

  while_draining-in_order :
      (f : BufferedEmitter Event → BufferedEmitter Event) (s : BufferedEmitter Event)
      → in_order (f s) ≡ in_order s
      → in_order (while_draining f s) ≡ in_order s
  unfolding while_draining
  while_draining-in_order f s h = go s.loop refl
    where
      go : (l : LoopState) → s.loop ≡ l → in_order (while_draining f s) ≡ in_order s
      go running k = simp (k, while_draining) refl
      go draining k = simp (k, while_draining) h
      go finished k = simp (k, while_draining) refl

  sent-in_order :
      (ev : Event) (s : BufferedEmitter Event) → in_order (send ev s) ≡ in_order s ++ ev ∷ []
  unfolding send in_order
  sent-in_order ev s = simp (append_assoc) refl

  -- One step keeps the order and adds what it accepts at the end.
  step-in_order :
      (x : Step Event) (s : BufferedEmitter Event)
      → s.has_writer ≡ true
      → in_order (step x s) ≡ in_order s ++ taken x s
  unfolding step taken
  step-in_order (emit ev) s w = elim (Bool-cases (has_room s)) [
    | inl room ↦ simp (room) (sent-in_order ev s)
    | inr full ↦ simp (full, append-nil) (unfold in_order in refl)
  ]
  step-in_order (emit_blocking ev) s w = elim (Bool-cases (has_room s)) [
    | inl room ↦ simp (room) (sent-in_order ev s)
    | inr full ↦ simp (full, append-nil) refl
  ]
  step-in_order (give_up ev) s w = simp (append-nil) (unfold in_order in refl)
  step-in_order close s w = simp (append-nil) (unfold in_order in refl)
  step-in_order (receive written) s w =
      simp (append-nil)
        (while_running-in_order (receive_one written) s (receive_one-in_order written s w))
  step-in_order (tick written) s w =
      simp (append-nil)
        (while_running-in_order (flush_some written) s (flush_some-in_order written s w))
  step-in_order notice s w =
      simp (append-nil) (while_running-in_order see_done s (see_done-in_order s))
  step-in_order drain s w =
      simp (append-nil) (while_draining-in_order drain_one s (drain_one-in_order s))
  step-in_order (drained written) s w =
      simp (append-nil)
        (while_draining-in_order (drain_end written) s (drain_end-in_order written s w))

  step-has_writer :
      (x : Step Event) (s : BufferedEmitter Event) → (step x s).has_writer ≡ s.has_writer
  unfolding step has_room send receive_one flush_full flush_some flush drain_one drain_end see_done
      while_running while_draining
  step-has_writer (emit ev) s = ground arith
  step-has_writer (emit_blocking ev) s = ground arith
  step-has_writer (give_up ev) s = refl
  step-has_writer close s = refl
  step-has_writer (receive written) s = ground arith
  step-has_writer (tick written) s = ground arith
  step-has_writer notice s = ground arith
  step-has_writer drain s = ground arith
  step-has_writer (drained written) s = ground arith

  run-in_order :
      (steps : List (Step Event)) (s : BufferedEmitter Event)
      → s.has_writer ≡ true
      → in_order (run steps s) ≡ in_order s ++ accepted steps s
  unfolding run accepted
  run-in_order [] s w = sym (append-nil (in_order s))
  run-in_order (x ∷ more) s w =
      run-in_order more (step x s) (step-has_writer x s ∙ w)
      ∙ (ap (λ z. z ++ accepted more (step x s)) (step-in_order x s w)
          ∙ append_assoc (in_order s) (taken x s) (accepted more (step x s)))

  -- With a writer, whatever happens in whatever order: the events that were accepted are, in the
  -- order in which they were accepted, those given to the writer, then those of the batch, then
  -- those in the channel. None is lost, doubled or overtaken, also where writes fail.
  pub run-delivered :
      (cfg : BufferConfig) (steps : List (Step Event))
      → cfg.has_writer ≡ true
      → in_order (run steps (new_buffered_emitter cfg)) ≡ accepted steps (new_buffered_emitter cfg)
  unfolding new_buffered_emitter in_order concat
  run-delivered cfg steps w = run-in_order steps (new_buffered_emitter cfg) w
