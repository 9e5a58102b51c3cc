-- ===== src/Streaming/Tracker.antt =====
-- ConnectionTracker of internal/streaming/tracker.go. Each method is one step, as its lock makes it.
-- What DrainAll does with the connections after it has taken them is the list of its effects.
pub mod Bound
use kubernaut_apifrontend.Common.{
  ℕ, String, Bool, true, false, Option, none, some, List, [], ◌∷◌, ◌++◌, map, if◌then◌else◌, length,
  leb, ltb, not, ◌&&◌, ◌==◌,
}
use kubernaut_apifrontend.Common.Dict.{Dict, insert, delete}
use kubernaut_apifrontend.Common.Int.{ℤ, pos, ltb_ℤ}

-- Whether the writer is an http.Flusher; Cancel is named by the connection's ID.
pub record TrackedConnection : Type 0 where
  pub id : String
  pub flusher : Bool

-- The gauge is its value, or `none` where there is none.
pub record ConnectionTracker : Type 0 where
  pub conns : Dict TrackedConnection
  pub gauge : Option ℕ
  pub drain_wait : ℤ
  pub max_connections : ℤ

unfoldable pub new_connection_tracker : Option ℕ → ℤ → ConnectionTracker
new_connection_tracker gauge drain_wait = record {
  conns = [];
  gauge = gauge;
  drain_wait = drain_wait;
  max_connections = pos 1000;
}

-- `t.gauge.Set(float64(n))`.
set_gauge : ℕ → Option ℕ → Option ℕ
set_gauge n none = none
set_gauge n (some _) = some n

with_conns : ConnectionTracker → Dict TrackedConnection → ConnectionTracker
unfolding set_gauge
with_conns t conns = record t { conns = conns; gauge = set_gauge (length conns) t.gauge }

unfoldable pub add : TrackedConnection → ConnectionTracker → ConnectionTracker × Bool
unfolding with_conns insert
add conn t =
    if ltb_ℤ (pos 0) t.max_connections && not (ltb_ℤ (pos (length t.conns)) t.max_connections)
    then (t, false)
    else (with_conns t (insert conn.id conn t.conns), true)

unfoldable pub remove : String → ConnectionTracker → ConnectionTracker
unfolding with_conns delete
remove id t = with_conns t (delete id t.conns)

abbrev pub count : ConnectionTracker → ℕ
count t = length t.conns

-- What DrainAll does outside the tracker, in this order.
pub data Effect : Type 0 where
  shutdown_frame : String → Effect
  wait : ℤ → Effect
  cancel : String → Effect

unfoldable pub frames : Dict TrackedConnection → List Effect
frames [] = []
frames ((k, c) ∷ rest) =
    let later = frames rest in if c.flusher then shutdown_frame c.id ∷ later else later

unfoldable pub cancels : Dict TrackedConnection → List Effect
cancels [] = []
cancels ((k, c) ∷ rest) = cancel c.id ∷ cancels rest

unfoldable pub drain_all : ConnectionTracker → ConnectionTracker × List Effect × ℕ
unfolding with_conns frames cancels
drain_all t =
    let snapshot = t.conns in
    let t' = with_conns t [] in
    if length snapshot == 0 then (t', [], 0) else (
      t',
      frames snapshot
          ++ ((if ltb_ℤ (pos 0) t.drain_wait then wait t.drain_wait ∷ [] else [])
              ++ cancels snapshot),
      length snapshot,
    )
