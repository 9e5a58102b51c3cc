-- ===== src/Config/Tests.antt =====
-- Runs of internal/config, and the theorems applied to them.
use kubernaut_apifrontend.Common.{
  ℕ, suc, ◌≤◌, ◌≡◌, ◌↔◌, refl, true, false, none, some, List, [], ◌∷◌, ltb,
}
use kubernaut_apifrontend.Resilience.Retry.{Transport, new_retry_transport, round_trip, response}
use kubernaut_apifrontend.Config.Types.{ConfigEnv}
use kubernaut_apifrontend.Config.Settings.{
  validate_settings, retry_config_of, equal_runes, upper_rune,
}
use kubernaut_apifrontend.Config.Settings.Defaults.{default_config, default_ka}
use kubernaut_apifrontend.Config.Settings.Accepted.{IsConfig, validate_settings-iff-IsConfig}
use kubernaut_apifrontend.Config.Settings.Attempts.{is_ka, accepted-attempts-le}
use kubernaut_apifrontend.Config.Reload.{
  ReloadEnv, FileWatcher, Received, file_event, debounced, start, limited, watch_loop,
}
use kubernaut_apifrontend.Config.Reload.Active.{IsActive, began, watch_loop-IsActive}

-- The world is the byte that the file holds; the callback refuses zero.
abbrev mounted : ReloadEnv
mounted = record {
  World = ℕ;
  now = λ w. 0;
  read_file = λ w. (w, some (w ∷ []));
  callback = λ w c. (w, ltb 0 w);
  compute_hash = λ c. "hash";
  watch_directory = λ w. (w, true);
}

abbrev first : FileWatcher
first = record { last_content = 5 ∷ []; last_hash = "hash"; last_reload = 0 }

abbrev steps : List (ℕ × Received)
steps = (0, file_event "..data" true) ∷ (0, debounced) ∷ (7, debounced) ∷ []

watch_loop-IsActive_example :
    IsActive mounted "hash" (watch_loop mounted "config.yaml" steps (began first))
unfolding start limited
watch_loop-IsActive_example = watch_loop-IsActive mounted 5 first refl "config.yaml" steps

-- Floats are tenths.
abbrev files : ConfigEnv
files = record {
  Float = ℕ;
  zero_float = 0;
  is_below_zero = λ x. false;
  is_above_one = λ x. ltb 10 x;
  scheme_of = λ s. some "http";
  accessible = λ s. true;
  llm_api_key = "";
  show_port = λ p. "8443";
}

default_config_valid : validate_settings files (default_config files) ≡ none
unfolding validate_settings default_config upper_rune equal_runes
default_config_valid = refl

validate_settings-iff-IsConfig_example :
    (validate_settings files (default_config files) ≡ none) ↔ IsConfig files (default_config files)
validate_settings-iff-IsConfig_example = validate_settings-iff-IsConfig files (default_config files)

-- A server that always answers 503.
abbrev failing : Transport
failing = record {
  World = ℕ;
  context_err = λ w. none;
  get_body = λ w. (w, none);
  next = λ w. (suc w, response 503);
  sleep_with_context = λ w. (w, none);
}

accepted-attempts-le_example :
    (round_trip failing
      (new_retry_transport (retry_config_of default_ka))
      (record { method = "GET"; no_body = true; has_get_body = false })
      0).sent
    ≤ 11
unfolding default_config
accepted-attempts-le_example =
    accepted-attempts-le files (default_config files) default_ka default_config_valid is_ka failing
      (record { method = "GET"; no_body = true; has_get_body = false }) 0
