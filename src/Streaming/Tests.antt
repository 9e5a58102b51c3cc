-- ===== src/Streaming/Tests.antt =====
-- Runs of internal/streaming, and the theorems applied to them.
use kubernaut_apifrontend.Common.{◌≤◌, refl, true, List, [], ◌∷◌}
use kubernaut_apifrontend.Common.Int.{pos}
use kubernaut_apifrontend.Streaming.Tracker.{
  TrackedConnection, ConnectionTracker, new_connection_tracker, count,
}
use kubernaut_apifrontend.Streaming.Tracker.Bound.{
  Call, add_call, remove_call, run, Shows, new_gauge, run_bounded,
}

abbrev conn : TrackedConnection
conn = record { id = "c1"; flusher = true }

abbrev calls : List Call
calls =
    add_call conn
    ∷ add_call (record conn { id = "c2" })
    ∷ add_call (record conn { id = "c3" })
    ∷ remove_call "c1"
    ∷ []

abbrev tracker : ConnectionTracker
tracker =
    run calls (record (new_connection_tracker (new_gauge true) (pos 5)) { max_connections = pos 2 })

run_bounded_example : (count tracker ≤ 2) × Shows tracker.gauge (count tracker)
run_bounded_example = run_bounded calls (pos 5) (pos 2) true refl
