-- ===== src/Audit/Buffered.antt =====
-- BufferedEmitter of internal/audit/buffered.go: emitters put events into a channel, and one
-- goroutine collects them into batches for the writer. The system is a state with one step for each
-- thing that can happen next, in any order. Events are opaque here: the time stamp, the request ID
-- and the redaction that Emit adds are left out. Log lines of dropped events are left out too.
pub mod Delivery
pub mod Closed
use kubernaut_apifrontend.Common.{
  ℕ, suc, ◌+◌, ◌*◌, Bool, true, false, Option, none, some, List, [], ◌∷◌, ◌++◌, if◌then◌else◌,
  length, leb, ltb,
}
use kubernaut_apifrontend.Common.Int.{ℤ, pos, pos_part, ltb_ℤ}

-- Where the flush loop stands: in its outer loop, in the one that empties the buffer, or over.
pub data LoopState : Type 0 where
  running draining finished : LoopState

-- The channel, oldest first, with its capacity; the batch; what the writer was given, what went to
-- the log because the writer failed, both oldest first; the counters, as they count when they are
-- configured; whether the `done` channel is closed; the flush loop.
pub record BufferedEmitter (Event : Type 0) : Type 0 where
  pub buffer : List Event
  pub capacity : ℕ
  pub batch : List Event
  pub batch_size : ℤ
  pub has_writer : Bool
  pub given : List (List Event)
  pub logged : List Event
  pub counted : ℕ
  pub overflow : ℕ
  pub done : Bool
  pub loop : LoopState

pub record BufferConfig : Type 0 where
  pub has_writer : Bool
  pub buffer_size : ℤ
  pub batch_size : ℤ

abbrev or_default : ℤ → ℕ → ℤ
or_default n fallback = if ltb_ℤ (pos 0) n then n else pos fallback

-- What can happen: a call of Emit, or of EmitBlocking that gets room or gives up; a call of Close;
-- the flush loop receives an event, its ticker fires, it sees `done`, takes an event of the rest, or
-- finds the buffer empty. A step that may call the writer carries whether the writer succeeds.
pub data Step (Event : Type 0) : Type 0 where
  emit : Event → Step Event
  emit_blocking : Event → Step Event
  give_up : Event → Step Event
  close : Step Event
  receive : Bool → Step Event
  tick : Bool → Step Event
  notice drain : Step Event
  drained : Bool → Step Event

module _ {Event : Type 0} where
  unfoldable pub new_buffered_emitter : BufferConfig → BufferedEmitter Event
  new_buffered_emitter cfg = record {
    buffer = [];
    capacity = pos_part (or_default cfg.buffer_size 4096);
    batch = [];
    batch_size = or_default cfg.batch_size 100;
    has_writer = cfg.has_writer;
    given = [];
    logged = [];
    counted = 0;
    overflow = 0;
    done = false;
    loop = running;
  }

  -- `case e.buffer <- &ev`, possible where the channel has room.
  pub has_room : BufferedEmitter Event → Bool
  has_room s = ltb (length s.buffer) s.capacity

  send : Event → BufferedEmitter Event → BufferedEmitter Event
  send ev s = record s { buffer = s.buffer ++ ev ∷ []; counted = suc s.counted }

  -- flushBatchBackground, and the new batch after it. Without a writer it succeeds at once.
  unfoldable pub flush : Bool → BufferedEmitter Event → BufferedEmitter Event
  flush written s =
      if s.has_writer
      then (if written then record s { given = s.given ++ s.batch ∷ []; batch = [] } else record s {
        given = s.given ++ s.batch ∷ [];
        logged = s.logged ++ s.batch;
        batch = [];
      })
      else record s { batch = [] }

  -- `if len(batch) > 0`.
  flush_some : Bool → BufferedEmitter Event → BufferedEmitter Event
  unfolding flush
  flush_some written s = if ltb 0 (length s.batch) then flush written s else s

  -- `if len(batch) >= e.batchSize`.
  flush_full : Bool → BufferedEmitter Event → BufferedEmitter Event
  unfolding flush
  flush_full written s = if ltb_ℤ (pos (length s.batch)) s.batch_size then s else flush written s

  -- The loop's steps, while it runs.
  unfoldable pub receive_one : Bool → BufferedEmitter Event → BufferedEmitter Event
  unfolding flush_full
  receive_one written s = elim s.buffer [
    | [] ↦ s
    | ev ∷ rest ↦ flush_full written (record s { buffer = rest; batch = s.batch ++ ev ∷ [] })
  ]

  -- The inner loop's steps, after `done`.
  unfoldable pub drain_one : BufferedEmitter Event → BufferedEmitter Event
  drain_one s = elim s.buffer [
    | [] ↦ s
    | ev ∷ rest ↦ record s { buffer = rest; batch = s.batch ++ ev ∷ [] }
  ]

  unfoldable pub drain_end : Bool → BufferedEmitter Event → BufferedEmitter Event
  unfolding flush_some
  drain_end written s =
      if ltb 0 (length s.buffer) then s else record (flush_some written s) { loop = finished }

  see_done : BufferedEmitter Event → BufferedEmitter Event
  see_done s = if s.done then record s { loop = draining } else s

  while_running :
      (BufferedEmitter Event → BufferedEmitter Event)
      → BufferedEmitter Event
      → BufferedEmitter Event
  while_running f s = elim s.loop [ running ↦ f s | _ ↦ s ]

  while_draining :
      (BufferedEmitter Event → BufferedEmitter Event)
      → BufferedEmitter Event
      → BufferedEmitter Event
  while_draining f s = elim s.loop [ draining ↦ f s | _ ↦ s ]

  unfoldable pub step : Step Event → BufferedEmitter Event → BufferedEmitter Event
  unfolding has_room send receive_one flush_some drain_one drain_end see_done while_running
      while_draining
  step (emit ev) s = if has_room s then send ev s else record s { overflow = suc s.overflow }
  step (emit_blocking ev) s = if has_room s then send ev s else s
  step (give_up ev) s = record s { overflow = suc s.overflow }
  step close s = record s { done = true }
  step (receive written) s = while_running (receive_one written) s
  step (tick written) s = while_running (flush_some written) s
  step notice s = while_running see_done s
  step drain s = while_draining drain_one s
  step (drained written) s = while_draining (drain_end written) s

  unfoldable pub run : List (Step Event) → BufferedEmitter Event → BufferedEmitter Event
  unfolding step
  run [] s = s
  run (x ∷ more) s = run more (step x s)
