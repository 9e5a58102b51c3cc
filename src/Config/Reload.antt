-- ===== src/Config/Reload.antt =====
-- FileWatcher of internal/config/hotreload.go. The file, the callback, fsnotify and SHA-256 are
-- outside. What the select of the watch loop receives is a list of steps, each with the world that
-- it finds; when the debounce timer fires is the environment's choice.
pub mod Changes
pub mod Active
pub mod Debounce
use kubernaut_apifrontend.Common.{
  ℕ, suc, String, Bool, true, false, Option, none, some, List, [], ◌∷◌, ◌++◌, ◌&&◌, ◌||◌, ltb,
  length, take, str_eq, if◌then◌else◌,
}

abbrev pub max_config_size : ℕ
max_config_size = 1048576

-- `read_file` opens the file and reads what it holds; `callback` answers whether it accepts a
-- content; `watch_directory` is the set-up of fsnotify.
pub record ReloadEnv : Type 1 where
  pub World : Type 0
  pub now : World → ℕ
  pub read_file : World → World × Option (List ℕ)
  pub callback : World → List ℕ → World × Bool
  pub compute_hash : List ℕ → String
  pub watch_directory : World → World × Bool

pub data ReadResult : Type 0 where
  content : List ℕ → ReadResult
  read_failed too_large : ReadResult

-- The audit events, which are emitted where there is an auditor.
pub data ReloadEvent : Type 0 where
  config_rejected config_reloaded : (hash : String) → ReloadEvent

pub record FileWatcher : Type 0 where
  pub last_content : List ℕ
  pub last_hash : String
  pub last_reload : ℕ

pub data StartError : Type 0 where
  initial_unreadable initial_rejected no_watcher : StartError

pub data Started : Type 0 where
  started : FileWatcher → Started
  start_error : StartError → Started

-- A file event carries the base of its name.
pub data Received : Type 0 where
  context_done stop_requested events_closed errors_closed watch_error debounced : Received
  file_event : (name : String) → (is_create : Bool) → Received

-- `armed` tells that the channel of the debounce timer is there.
pub record LoopState : Type 0 where
  pub watcher : FileWatcher
  pub armed : Bool
  pub running : Bool
  pub events : List ReloadEvent

-- The file itself, or the swap of the ConfigMap's symbolic link.
unfoldable pub is_relevant : String → String → Bool → Bool
is_relevant filename name is_create = str_eq name filename || (is_create && str_eq name "..data")

unfoldable pub add_event : List ReloadEvent → Option ReloadEvent → List ReloadEvent
add_event events none = events
add_event events (some x) = events ++ x ∷ []

-- The reader stops one byte after the limit.
unfoldable pub limited : ℕ → List ℕ → ReadResult
limited max file =
    let read = take (suc max) file in if ltb max (length read) then too_large else content read

module _ (e : ReloadEnv) where
  open e use {World, now, read_file, callback, compute_hash, watch_directory}

  unfoldable pub read_file_limited : World → World × ReadResult
  unfolding limited
  read_file_limited w =
      let (w', r) = read_file w in
      (w', elim r [ none ↦ read_failed | some file ↦ limited max_config_size file ])

  unfoldable pub loaded : World → List ℕ → FileWatcher
  loaded w c = record { last_content = c; last_hash = compute_hash c; last_reload = now w }

  unfoldable pub load_initial : World → World × Started
  unfolding read_file_limited loaded
  load_initial w =
      let (w₁, r) = read_file_limited w in
      elim r [
        | read_failed ↦ (w₁, start_error initial_unreadable)
        | too_large ↦ (w₁, start_error initial_unreadable)
        | content c ↦
            let (w₂, accepted) = callback w₁ c in
            (w₂, if accepted then started (loaded w₂ c) else start_error initial_rejected)
      ]

  unfoldable pub start : World → World × Started
  unfolding load_initial
  start w =
      let (w₁, r) = load_initial w in
      elim r [
        | start_error x ↦ (w₁, start_error x)
        | started fw ↦
            let (w₂, watching) = watch_directory w₁ in
            (w₂, if watching then started fw else start_error no_watcher)
      ]

  unfoldable pub handle_file_change : World → FileWatcher → World × FileWatcher × Option ReloadEvent
  unfolding read_file_limited loaded
  handle_file_change w fw =
      let (w₁, r) = read_file_limited w in
      elim r [
        | read_failed ↦ (w₁, fw, none)
        | too_large ↦ (w₁, fw, none)
        | content c ↦
            let hash = compute_hash c in
            let (w₂, accepted) = callback w₁ c in
            elim (str_eq hash fw.last_hash) [
              | true ↦ (w₁, fw, none)
              | false ↦ elim accepted [
                | false ↦ (w₂, fw, some (config_rejected hash))
                | true ↦ (w₂, loaded w₂ c, some (config_reloaded hash))
              ]
            ]
      ]

  -- One receive; the timer's channel blocks where it is nil.
  unfoldable pub receive : String → World → Received → LoopState → LoopState
  unfolding is_relevant handle_file_change add_event
  receive filename w context_done s = record s { running = false }
  receive filename w stop_requested s = record s { running = false }
  receive filename w events_closed s = record s { running = false }
  receive filename w errors_closed s = record s { running = false }
  receive filename w watch_error s = s
  receive filename w (file_event name is_create) s =
      if is_relevant filename name is_create then record s { armed = true } else s
  receive filename w debounced s =
      let (w', fw, x) = handle_file_change w s.watcher in
      if s.armed
      then record {
        watcher = fw;
        armed = false;
        running = s.running;
        events = add_event s.events x;
      }
      else s

  unfoldable pub watch_loop : String → List (World × Received) → LoopState → LoopState
  unfolding receive
  watch_loop filename [] s = s
  watch_loop filename ((w, x) ∷ more) s =
      let rest = watch_loop filename more (receive filename w x s) in if s.running then rest else s
