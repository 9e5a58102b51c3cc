-- ===== src/Config/Reload/Active.antt =====
-- Which content FileWatcher (internal/config/hotreload.go) keeps in force.
use kubernaut_apifrontend.Common.{
  ◌≡◌, refl, sym, subst, ◌∙◌, ◌⊎◌, inl, inr, String, Bool, true, false, Option, List, [], ◌∷◌, ◌++◌,
  arith, Bool-cases, if◌then◌else◌,
}
use kubernaut_apifrontend.Config.Reload.{
  ReloadEnv, ReloadEvent, config_rejected, config_reloaded, FileWatcher, Started, started,
  start_error, StartError, Received, context_done, stop_requested, events_closed, errors_closed,
  watch_error, debounced, file_event, LoopState, is_relevant, add_event, loaded, load_initial,
  start, handle_file_change, receive, watch_loop,
}
use kubernaut_apifrontend.Config.Reload.Changes.{
  ReadResult-cases, IsAccepted, loaded-IsAccepted, read, asked, Changes, unread, unchanged,
  not_accepted, reloaded, handle_file_change-Changes,
}

Started-cases :
    (r : Started)
    → ((fw : FileWatcher) × (r ≡ started fw)) ⊎ ((x : StartError) × (r ≡ start_error x))
Started-cases (started fw) = inl (fw, refl)
Started-cases (start_error x) = inr (x, refl)

-- The hash of the last reload among the events, or the one before them.
abbrev pub last_reloaded : String → List ReloadEvent → String
last_reloaded hash [] = hash
last_reloaded hash (config_rejected h ∷ more) = last_reloaded hash more
last_reloaded hash (config_reloaded h ∷ more) = last_reloaded h more

last_reloaded-append :
    (hash : String) (xs ys : List ReloadEvent)
    → last_reloaded hash (xs ++ ys) ≡ last_reloaded (last_reloaded hash xs) ys
last_reloaded-append hash [] ys = refl
last_reloaded-append hash (config_rejected h ∷ more) ys = last_reloaded-append hash more ys
last_reloaded-append hash (config_reloaded h ∷ more) ys = last_reloaded-append h more ys

on_both : (P : LoopState → Type 0) (b : Bool) (x y : LoopState) → P x → P y → P (if b then x else y)
on_both P true x y a b = a
on_both P false x y a b = b

-- The state in which the loop begins.
abbrev pub began : FileWatcher → LoopState
began fw = record { watcher = fw; armed = false; running = true; events = [] }

module _ (e : ReloadEnv) where
  open e use {World, now, read_file, callback, compute_hash}

  -- What holds of a watcher that started with a hash.
  pub record IsActive (hash : String) (s : LoopState) : Type 0 where
    pub is_accepted : IsAccepted e s.watcher
    pub in_force : s.watcher.last_hash ≡ last_reloaded hash s.events

  abbrev handled : LoopState → World × FileWatcher × Option ReloadEvent → LoopState
  handled s r = record {
    watcher = r.1;
    armed = false;
    running = s.running;
    events = add_event s.events r.2;
  }

  handled-IsActive :
      (hash : String) (w : World) (s : LoopState) (r : World × FileWatcher × Option ReloadEvent)
      → IsActive hash s
      → Changes e w s.watcher r
      → IsActive hash (handled s r)
  unfolding add_event loaded
  handled-IsActive hash w s r k (unread n q) =
      rw q (record { is_accepted = k.is_accepted; in_force = k.in_force })
  handled-IsActive hash w s r k (unchanged c h same q) =
      rw q (record { is_accepted = k.is_accepted; in_force = k.in_force })
  handled-IsActive hash w s r k (not_accepted c h differs a q) = rw q (record {
    is_accepted = k.is_accepted;
    in_force =
        k.in_force
        ∙ sym (last_reloaded-append hash s.events (config_rejected (compute_hash c) ∷ []));
  })
  handled-IsActive hash w s r k (reloaded c h differs a q) = rw q (record {
    is_accepted = loaded-IsAccepted e w (asked e w c).0 (read e w).0 c h a;
    in_force = sym (last_reloaded-append hash s.events (config_reloaded (compute_hash c) ∷ []));
  })

  receive-IsActive :
      (hash filename : String) (w : World) (x : Received) (s : LoopState)
      → IsActive hash s
      → IsActive hash (receive e filename w x s)
  unfolding receive
  receive-IsActive hash filename w context_done s k = record {
    is_accepted = k.is_accepted;
    in_force = k.in_force;
  }
  receive-IsActive hash filename w stop_requested s k = record {
    is_accepted = k.is_accepted;
    in_force = k.in_force;
  }
  receive-IsActive hash filename w events_closed s k = record {
    is_accepted = k.is_accepted;
    in_force = k.in_force;
  }
  receive-IsActive hash filename w errors_closed s k = record {
    is_accepted = k.is_accepted;
    in_force = k.in_force;
  }
  receive-IsActive hash filename w watch_error s k = k
  receive-IsActive hash filename w (file_event name is_create) s k =
      on_both (IsActive hash) (is_relevant filename name is_create) (record s { armed = true }) s
        (record { is_accepted = k.is_accepted; in_force = k.in_force }) k
  receive-IsActive hash filename w debounced s k =
      on_both (IsActive hash) s.armed (handled s (handle_file_change e w s.watcher)) s
        (handled-IsActive hash w s (handle_file_change e w s.watcher) k
          (handle_file_change-Changes e w s.watcher))
        k

  loop-IsActive :
      (hash filename : String) (steps : List (World × Received)) (s : LoopState)
      → IsActive hash s
      → IsActive hash (watch_loop e filename steps s)
  unfolding watch_loop
  loop-IsActive hash filename [] s k = k
  loop-IsActive hash filename ((w, x) ∷ more) s k =
      on_both (IsActive hash) s.running (watch_loop e filename more (receive e filename w x s)) s
        (loop-IsActive hash filename more (receive e filename w x s)
          (receive-IsActive hash filename w x s k))
        k

  load_initial-IsAccepted :
      (w : World) (fw : FileWatcher) → (load_initial e w).1 ≡ started fw → IsAccepted e fw
  unfolding load_initial
  load_initial-IsAccepted w fw h = elim (ReadResult-cases (read e w).1) [
    | inr (inl r) ↦ absurd (let z = rw (r, load_initial) at h in cc)
    | inr (inr r) ↦ absurd (let z = rw (r, load_initial) at h in cc)
    | inl (c, r) ↦ elim (Bool-cases (asked e w c).1) [
      | inr no_accepted ↦ absurd (ground (arith, r, no_accepted, h))
      | inl yes_accepted ↦
          let q : loaded e (asked e w c).0 c ≡ fw = ground (arith, r, yes_accepted, h) in
          subst (IsAccepted e) q
            (loaded-IsAccepted e w (asked e w c).0 (read e w).0 c r yes_accepted)
    ]
  ]

  start-IsAccepted : (w : World) (fw : FileWatcher) → (start e w).1 ≡ started fw → IsAccepted e fw
  unfolding start
  start-IsAccepted w fw h = elim (Started-cases (load_initial e w).1) [
    | inr (x, failed) ↦ absurd (ground (arith, failed, h))
    | inl (first, r) ↦ elim (Bool-cases (e.watch_directory (load_initial e w).0).1) [
      | inr no_watch ↦ absurd (ground (arith, r, no_watch, h))
      | inl watching ↦
          let q : first ≡ fw = ground (arith, r, watching, h) in
          subst (IsAccepted e) q (load_initial-IsAccepted w first r)
    ]
  ]

  -- Once a watcher has started, whatever the loop receives and whatever the file holds then, the
  -- content in force has at most 1 MiB and was accepted by the callback, and its hash is that of the
  -- last reload that was audited, or else of the initial content.
  pub watch_loop-IsActive :
      (w : World) (fw : FileWatcher)
      → (start e w).1 ≡ started fw
      → (filename : String) (steps : List (World × Received))
      → IsActive fw.last_hash (watch_loop e filename steps (began fw))
  watch_loop-IsActive w fw h filename steps =
      loop-IsActive fw.last_hash filename steps (began fw)
        (record { is_accepted = start-IsAccepted w fw h; in_force = refl })
