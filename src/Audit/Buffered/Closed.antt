-- ===== src/Audit/Buffered/Closed.antt =====
-- What BufferedEmitter (internal/audit/buffered.go) does with events after its flush loop is over.
use kubernaut_apifrontend.Common.{
  ◌+◌, ◌≤◌, ◌≡◌, refl, ap, sym, ◌∙◌, List, [], ◌∷◌, ◌++◌, arith, length, length-append,
}
use mathlib.Core.List.{append_assoc, append-nil}
use kubernaut_apifrontend.Audit.Buffered.{
  finished, BufferedEmitter, BufferConfig, Step, emit, emit_blocking, give_up, close, receive, tick,
  notice, drain, drained, new_buffered_emitter, has_room, send, flush, flush_some, flush_full,
  receive_one, drain_one, drain_end, see_done, while_running, while_draining, step, run,
}
use kubernaut_apifrontend.Audit.Buffered.Delivery.{accepted, taken}

module _ {Event : Type 0} where
  step-Bound :
      (x : Step Event) (s : BufferedEmitter Event)
      → length s.buffer ≤ s.capacity
      → (length (step x s).buffer ≤ (step x s).capacity) × ((step x s).capacity ≡ s.capacity)
  unfolding step has_room send receive_one flush_full flush_some flush drain_one drain_end see_done
      while_running while_draining
  step-Bound (emit ev) s h = ground (arith, length-append s.buffer (ev ∷ []))
  step-Bound (emit_blocking ev) s h = ground (arith, length-append s.buffer (ev ∷ []))
  step-Bound (give_up ev) s h = (h, refl)
  step-Bound close s h = (h, refl)
  step-Bound (receive written) s h = ground arith
  step-Bound (tick written) s h = ground arith
  step-Bound notice s h = ground arith
  step-Bound drain s h = ground arith
  step-Bound (drained written) s h = ground arith

  run-le-capacity :
      (steps : List (Step Event)) (s : BufferedEmitter Event)
      → length s.buffer ≤ s.capacity
      → length (run steps s).buffer ≤ s.capacity
  unfolding run
  run-le-capacity [] s h = h
  run-le-capacity (x ∷ more) s h =
      let (k, same) = step-Bound x s h in
      let ih = run-le-capacity more (step x s) k in omega (arith, ih, same)

  step-finished :
      (x : Step Event) (s : BufferedEmitter Event)
      → s.loop ≡ finished
      → ((step x s).loop ≡ finished)
        × ((step x s).given ≡ s.given)
        × ((step x s).buffer ≡ s.buffer ++ taken x s)
        × ((step x s).counted ≡ s.counted + length (taken x s))
  unfolding step taken has_room send receive_one flush_full flush_some flush drain_one drain_end
      see_done while_running while_draining
  step-finished (emit ev) s h = ground (arith, append-nil s.buffer)
  step-finished (emit_blocking ev) s h = ground (arith, append-nil s.buffer)
  step-finished (give_up ev) s h = (h, refl, sym (append-nil s.buffer), omega arith)
  step-finished close s h = (h, refl, sym (append-nil s.buffer), omega arith)
  step-finished (receive written) s h = ground (arith, append-nil s.buffer)
  step-finished (tick written) s h = ground (arith, append-nil s.buffer)
  step-finished notice s h = ground (arith, append-nil s.buffer)
  step-finished drain s h = ground (arith, append-nil s.buffer)
  step-finished (drained written) s h = ground (arith, append-nil s.buffer)

  -- Once the flush loop is over, the events that are still accepted stay in the channel and are
  -- counted as emitted, and the writer is given nothing more, whatever happens.
  pub run-finished :
      (steps : List (Step Event)) (s : BufferedEmitter Event)
      → s.loop ≡ finished
      → ((run steps s).given ≡ s.given)
        × ((run steps s).buffer ≡ s.buffer ++ accepted steps s)
        × ((run steps s).counted ≡ s.counted + length (accepted steps s))
  unfolding run accepted
  run-finished [] s h = (refl, sym (append-nil s.buffer), omega arith)
  run-finished (x ∷ more) s h =
      let (over, given, buffer, counted) = step-finished x s h in
      let (given', buffer', counted') = run-finished more (step x s) over in
      (
        given' ∙ given,
        buffer'
            ∙ (ap (λ z. z ++ accepted more (step x s)) buffer
                ∙ append_assoc s.buffer (taken x s) (accepted more (step x s))),
        omega (arith, counted, counted', length-append (taken x s) (accepted more (step x s))),
      )

  -- The channel never holds more than its capacity, the configured buffer size.
  pub run-le-buffer_size :
      (cfg : BufferConfig) (steps : List (Step Event))
      → length (run steps (new_buffered_emitter cfg)).buffer
        ≤ (new_buffered_emitter {Event = Event} cfg).capacity
  unfolding new_buffered_emitter
  run-le-buffer_size cfg steps = run-le-capacity steps (new_buffered_emitter cfg) (omega arith)
