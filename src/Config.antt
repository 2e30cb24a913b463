-- ===== src/Config.antt =====
-- config_loader: config.hpp and config.cpp. yaml-cpp is a parameter: `Yaml` has the calls on its
-- nodes, and `none` of a reading is its exception.
use access_security_system_e.Common.{
  ℕ, Bool, true, false, ◌&&◌, ◌>>=◌, ◌≡◌, ap, sym, ◌∙◌, some-inj, Bool-cases, inl, inr, arith,
  Option, none, some, String, ◌==◌, if◌then◌else◌,
}
use access_security_system_e.Handler.{FrameHandlerConfig}

pub record Yaml (N : Type 0) : Type 0 where
  -- root[key]
  pub section : N → String → N
  -- node && node[key]
  pub has : N → String → Bool
  -- node[key].as<T>()
  pub as_bool : N → String → Option Bool
  pub as_u16 : N → String → Option ℕ
  pub as_u32 : N → String → Option ℕ
  pub as_u64 : N → String → Option ℕ
  pub as_size : N → String → Option ℕ
  pub as_text : N → String → Option String

pub record StorageConfig : Type 0 where
  pub sqlite_path : String

pub record AdminConfig : Type 0 where
  pub bind_host : String
  pub port : ℕ
  pub admin_token : String
  pub hw_shared_secret_hex : String
  pub max_upload_bytes : ℕ
  pub max_events : ℕ
  pub decision_mode : String
  pub decision_url : String

pub record KeyManagementYaml : Type 0 where
  pub current_key_version : ℕ
  pub allow_previous_key_version : Bool
  pub master_key_path : String

pub record ExperimentConfig : Type 0 where
  pub cipher_mode : String
  pub nonce_mode : String
  pub key_derivation_mode : String
  pub aad_mode : String
  pub pepper_mode : String
  pub audit_chain_enabled : Bool
  pub misuse_detection_enabled : Bool
  pub rollback_threshold : ℕ
  pub tag_fail_streak_limit : ℕ

pub record Config : Type 0 where
  pub frame_handler : FrameHandlerConfig
  pub storage : StorageConfig
  pub admin : AdminConfig
  pub key_management : KeyManagementYaml
  pub experiment : ExperimentConfig

module _ {N : Type 0} (yaml : Yaml N) where
  unfoldable pub read_value : {A : Type 0} → (N → String → Option A) → N → String → A → Option A
  read_value convert node key default = if yaml.has node key then convert node key else some default

  -- The check at the end of loadFrameHandler; `none` is its exception.
  unfoldable pub valid_window : FrameHandlerConfig → Option FrameHandlerConfig
  valid_window cfg =
      if cfg.anti_replay_enabled && (cfg.replay_window_size == 0) then none else some cfg

  -- loadFrameHandler: the modes keep their defaults here.
  unfoldable pub load_frame_handler : N → Option FrameHandlerConfig
  unfolding read_value valid_window
  load_frame_handler node = do
    anti_replay ← read_value yaml.as_bool node "anti_replay_enabled" true
    window_size ← read_value yaml.as_size node "replay_window_size" 256
    max_ct_len ← read_value yaml.as_u32 node "max_ct_len" 4096
    max_skew_ms ← read_value yaml.as_u64 node "max_skew_ms" 0
    allow_previous ← read_value yaml.as_bool node "allow_previous_key_version" true
    enforce ← read_value yaml.as_bool node "enforce_reader_door_binding" true
    valid_window (record {
      anti_replay_enabled = anti_replay;
      replay_window_size = window_size;
      max_ct_len = max_ct_len;
      max_skew_ms = max_skew_ms;
      allow_previous_key_version = allow_previous;
      enforce_reader_door_binding = enforce;
      key_derivation_mode = "hkdf";
      aad_mode = "full";
      pepper_mode = "versioned";
      cipher_mode = "xchacha20";
      nonce_mode = "deterministic";
    })

  unfoldable pub load_storage : N → Option StorageConfig
  unfolding read_value
  load_storage node = do
    path ← read_value yaml.as_text node "sqlite_path" "data/access.db"
    some (record { sqlite_path = path })

  unfoldable pub load_admin : N → Option AdminConfig
  unfolding read_value
  load_admin node = do
    bind_host ← read_value yaml.as_text node "bind_host" "127.0.0.1"
    port ← read_value yaml.as_u16 node "port" 8080
    admin_token ← read_value yaml.as_text node "admin_token" ""
    hw_secret ← read_value yaml.as_text node "hw_shared_secret_hex" ""
    max_upload ← read_value yaml.as_size node "max_upload_bytes" 20971520
    max_events ← read_value yaml.as_size node "max_events" 1024
    decision_mode ← read_value yaml.as_text node "decision_mode" "local"
    decision_url ← read_value yaml.as_text node "decision_url" "http://127.0.0.1:8081"
    some (record {
      bind_host = bind_host;
      port = port;
      admin_token = admin_token;
      hw_shared_secret_hex = hw_secret;
      max_upload_bytes = max_upload;
      max_events = max_events;
      decision_mode = decision_mode;
      decision_url = decision_url;
    })

  unfoldable pub load_key_management : N → Option KeyManagementYaml
  unfolding read_value
  load_key_management node = do
    current ← read_value yaml.as_u32 node "current_key_version" 1
    allow_previous ← read_value yaml.as_bool node "allow_previous_key_version" true
    path ← read_value yaml.as_text node "master_key_path" "secrets/master_key.hex"
    some (record {
      current_key_version = current;
      allow_previous_key_version = allow_previous;
      master_key_path = path;
    })

  unfoldable pub load_experiment : N → Option ExperimentConfig
  unfolding read_value
  load_experiment node = do
    cipher_mode ← read_value yaml.as_text node "cipher_mode" "xchacha20"
    nonce_mode ← read_value yaml.as_text node "nonce_mode" "deterministic"
    key_derivation_mode ← read_value yaml.as_text node "key_derivation_mode" "hkdf"
    aad_mode ← read_value yaml.as_text node "aad_mode" "full"
    pepper_mode ← read_value yaml.as_text node "pepper_mode" "versioned"
    chain ← read_value yaml.as_bool node "audit_chain_enabled" true
    misuse ← read_value yaml.as_bool node "misuse_detection_enabled" false
    threshold ← read_value yaml.as_u64 node "rollback_threshold" 100
    streak ← read_value yaml.as_u32 node "tag_fail_streak_limit" 5
    some (record {
      cipher_mode = cipher_mode;
      nonce_mode = nonce_mode;
      key_derivation_mode = key_derivation_mode;
      aad_mode = aad_mode;
      pepper_mode = pepper_mode;
      audit_chain_enabled = chain;
      misuse_detection_enabled = misuse;
      rollback_threshold = threshold;
      tag_fail_streak_limit = streak;
    })

  -- loadFromYaml; `loaded` is YAML::LoadFile of the path.
  unfoldable pub load_from_yaml : Option N → Option Config
  unfolding load_frame_handler load_storage load_admin load_key_management load_experiment
  load_from_yaml loaded = do
    root ← loaded
    frame_handler ← load_frame_handler (yaml.section root "frame_handler")
    storage ← load_storage (yaml.section root "storage")
    admin ← load_admin (yaml.section root "admin")
    key_management ← load_key_management (yaml.section root "key_management")
    experiment ← load_experiment (yaml.section root "experiment")
    some (record {
      frame_handler = frame_handler;
      storage = storage;
      admin = admin;
      key_management = key_management;
      experiment = experiment;
    })

-- What AppState::openOrCreate hands to the frame handler: the modes are those of the experiment.
unfoldable pub handler_config : Config → FrameHandlerConfig
handler_config cfg = record cfg.frame_handler {
  key_derivation_mode = cfg.experiment.key_derivation_mode;
  aad_mode = cfg.experiment.aad_mode;
  pepper_mode = cfg.experiment.pepper_mode;
  cipher_mode = cfg.experiment.cipher_mode;
  nonce_mode = cfg.experiment.nonce_mode;
}

none-some {ℓ} : {A : Type ℓ} {a : A} → none ≡ some a → ⊥
none-some e = cc

-- A configuration that checks the replay has a window with room, so that the handler's own fallback
-- to a window of 1 is never taken.
valid_window_inv :
    {N : Type 0} (yaml : Yaml N) (cfg c : FrameHandlerConfig)
    → valid_window yaml cfg ≡ some c
    → c.anti_replay_enabled ≡ true
    → (c.replay_window_size == 0) ≡ false
unfolding valid_window
valid_window_inv yaml cfg c h on =
    elim (Bool-cases (cfg.anti_replay_enabled && (cfg.replay_window_size == 0))) [
      | inl z ↦ absurd (none-some (rw (valid_window, z) at h))
      | inr z ↦
          let same = some-inj (rw (valid_window, z) at h) in
          let first : cfg.anti_replay_enabled ≡ true = ap (λ o. o.anti_replay_enabled) same ∙ on in
          ap (λ o. o.replay_window_size == 0) (sym same) ∙ ground arith
    ]
