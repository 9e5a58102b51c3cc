-- ===== src/Audit/Tests.antt =====
-- Runs of internal/audit, and the theorems applied to them. An event is a number.
use kubernaut_apifrontend.Common.{ℕ, ◌+◌, ◌≡◌, refl, true, false, List, [], ◌∷◌, ◌++◌, length}
use kubernaut_apifrontend.Common.Int.{pos}
use kubernaut_apifrontend.Audit.Buffered.{
  BufferedEmitter, BufferConfig, Step, finished, emit, close, receive, notice, drain, drained,
  new_buffered_emitter, run,
}
use kubernaut_apifrontend.Audit.Buffered.Delivery.{in_order, accepted, run-delivered}
use kubernaut_apifrontend.Audit.Buffered.Closed.{run-finished}

abbrev cfg : BufferConfig
cfg = record { has_writer = true; buffer_size = pos 2; batch_size = pos 2 }

-- Two events fit, the third is dropped, and the buffer is drained after Close.
abbrev steps : List (Step ℕ)
steps =
    emit 1
    ∷ emit 2
    ∷ emit 3
    ∷ receive true
    ∷ emit 4
    ∷ close
    ∷ notice
    ∷ drain
    ∷ drain
    ∷ drained false
    ∷ []

run-delivered_example :
    in_order (run steps (new_buffered_emitter cfg)) ≡ accepted steps (new_buffered_emitter cfg)
run-delivered_example = run-delivered cfg steps refl

abbrev late : List (Step ℕ)
late = emit 5 ∷ receive true ∷ drain ∷ []

abbrev over : BufferedEmitter ℕ
over = record {
  buffer = [];
  capacity = 2;
  batch = [];
  batch_size = pos 2;
  has_writer = true;
  given = (1 ∷ 2 ∷ []) ∷ (4 ∷ []) ∷ [];
  logged = 4 ∷ [];
  counted = 3;
  overflow = 1;
  done = true;
  loop = finished;
}

run-finished_example :
    ((run late over).given ≡ (1 ∷ 2 ∷ []) ∷ (4 ∷ []) ∷ [])
    × ((run late over).buffer ≡ [] ++ accepted late over)
    × ((run late over).counted ≡ 3 + length (accepted late over))
run-finished_example = run-finished late over refl
