-- ===== src/Config/Reload/Debounce.antt =====
-- How often FileWatcher (internal/config/hotreload.go) reloads.
use kubernaut_apifrontend.Common.{
  ℕ, ◌+◌, ◌≤◌, ◌≡◌, refl, String, Bool, true, false, Option, none, some, List, [], ◌∷◌, length,
  length-append, arith, if◌then◌else◌,
}
use kubernaut_apifrontend.Config.Reload.{
  ReloadEnv, ReloadEvent, FileWatcher, Received, context_done, stop_requested, events_closed,
  errors_closed, watch_error, debounced, file_event, LoopState, is_relevant, add_event,
  handle_file_change, receive, watch_loop,
}
use kubernaut_apifrontend.Config.Reload.Active.{began}

abbrev one_if : Bool → ℕ
one_if b = if b then 1 else 0

-- A file event that arms the timer.
abbrev weight : String → Received → ℕ
weight filename (file_event name is_create) = one_if (is_relevant filename name is_create)
weight filename _ = 0

add_event-length :
    (events : List ReloadEvent) (x : Option ReloadEvent)
    → length (add_event events x) ≤ length events + 1
unfolding add_event
add_event-length events none = omega arith
add_event-length events (some x) = omega (arith, length-append events (x ∷ []))

-- The events so far, with the one that the timer may still bring.
abbrev charge : LoopState → ℕ
charge s = length s.events + one_if s.armed

module _ (e : ReloadEnv) where
  open e use {World}

  -- The relevant file events among the steps.
  abbrev pub relevant : String → List (World × Received) → ℕ
  relevant filename [] = 0
  relevant filename ((w, x) ∷ more) = weight filename x + relevant filename more

  armed_charge :
      (b : Bool) (s : LoopState)
      → charge (if b then record s { armed = true } else s) ≤ charge s + one_if b
  armed_charge true s = ground arith
  armed_charge false s = omega arith

  fired_charge :
      (b : Bool) (s : LoopState) (fw : FileWatcher) (x : Option ReloadEvent)
      → s.armed ≡ b
      → charge (
          if b
          then record {
            watcher = fw;
            armed = false;
            running = s.running;
            events = add_event s.events x;
          }
          else s)
        ≤ charge s
  fired_charge true s fw x h = rw h (omega (arith, add_event-length s.events x))
  fired_charge false s fw x h = omega arith

  receive-charge :
      (filename : String) (w : World) (x : Received) (s : LoopState)
      → charge (receive e filename w x s) ≤ charge s + weight filename x
  unfolding receive
  receive-charge filename w context_done s = omega arith
  receive-charge filename w stop_requested s = omega arith
  receive-charge filename w events_closed s = omega arith
  receive-charge filename w errors_closed s = omega arith
  receive-charge filename w watch_error s = omega arith
  receive-charge filename w (file_event name is_create) s =
      armed_charge (is_relevant filename name is_create) s
  receive-charge filename w debounced s =
      let r = handle_file_change e w s.watcher in omega (arith, fired_charge s.armed s r.1 r.2 refl)

  loop-charge :
      (filename : String) (steps : List (World × Received)) (s : LoopState)
      → charge (watch_loop e filename steps s) ≤ charge s + relevant filename steps
  unfolding watch_loop
  loop-charge filename [] s = omega arith
  loop-charge filename ((w, x) ∷ more) s = go s.running (
      omega (
        arith,
        loop-charge filename more (receive e filename w x s),
        receive-charge filename w x s,
      ))
    where
      go :
          (b : Bool)
          → charge (watch_loop e filename more (receive e filename w x s))
            ≤ charge s + (weight filename x + relevant filename more)
          → charge (if b then watch_loop e filename more (receive e filename w x s) else s)
            ≤ charge s + (weight filename x + relevant filename more)
      go true h = h
      go false h = omega arith

  -- There are at most as many reloads and rejections, which are audited, as file events that concern
  -- the configuration, however often the timer fires.
  pub watch_loop-events-le :
      (fw : FileWatcher) (filename : String) (steps : List (World × Received))
      → length (watch_loop e filename steps (began fw)).events ≤ relevant filename steps
  watch_loop-events-le fw filename steps = omega (arith, loop-charge filename steps (began fw))
