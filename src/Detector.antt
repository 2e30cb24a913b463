-- ===== src/Detector.antt =====
-- access_core: protocol_anomaly_detector.hpp and .cpp. The mutex serialises the methods, so each is
-- a step from one state to the next. `sodium_memcmp` compares bytes in constant time;
-- the details of a quarantine are the bytes of the text.
pub mod Reports
pub mod Quarantine
pub mod Thresholds
use access_security_system_e.Common.{
  ℕ, ◌+◌, ◌%◌, ◌^◌, ◌≡◌, refl, Bool, true, false, ◌&&◌, List, [], ◌∷◌, ◌++◌, Option, none, some,
  String, arith, take, ltb, leb, ◌==◌, if◌then◌else◌, bytes_eq,
}
use access_security_system_e.Common.Maps.{Map, lookup, update}
use access_security_system_e.Common.Text.{codes}
use access_security_system_e.Common.Decimal.{to_string}
use access_security_system_e.Protocol.Codec.{u32_mod, u64_mod}

pub data AnomalyType : Type 0 where
  seq_reuse seq_rollback nonce_mismatch tag_fail_streak : AnomalyType

unfoldable pub anomaly_type_to_string : AnomalyType → String
anomaly_type_to_string seq_reuse = "seq_reuse"
anomaly_type_to_string seq_rollback = "seq_rollback"
anomaly_type_to_string nonce_mismatch = "nonce_mismatch"
anomaly_type_to_string tag_fail_streak = "tag_fail_streak"

pub record DetectorConfig : Type 0 where
  pub enabled : Bool
  pub rollback_threshold : ℕ
  pub tag_fail_streak_limit : ℕ

pub record QuarantineInfo : Type 0 where
  pub ts_unix_ms : ℕ
  pub reason : AnomalyType
  pub detail : List ℕ

pub record ReaderState : Type 0 where
  pub max_seen_seq : ℕ
  pub consecutive_tag_fails : ℕ
  pub quarantine : Option QuarantineInfo

abbrev pub fresh_reader : ReaderState
fresh_reader = record { max_seen_seq = 0; consecutive_tag_fails = 0; quarantine = none }

pub record Detector : Type 0 where
  pub config : DetectorConfig
  pub readers : Map ReaderState

unfoldable pub new_detector : DetectorConfig → Detector
new_detector config = record { config = config; readers = [] }

-- _readers[readerId]: a missing reader is created.
unfoldable pub get_state : Detector → ℕ → ReaderState
get_state d reader_id = elim (lookup reader_id d.readers) [ none ↦ fresh_reader | some s ↦ s ]

unfoldable pub set_state : Detector → ℕ → ReaderState → Detector
set_state d reader_id s = record d { readers = update reader_id s d.readers }

unfoldable pub do_quarantine : ReaderState → AnomalyType → ℕ → List ℕ → ReaderState
do_quarantine s reason ts_ms detail = record s {
  quarantine = some (record { ts_unix_ms = ts_ms; reason = reason; detail = detail });
}

abbrev pub has_value {ℓ} : {A : Type ℓ} → Option A → Bool
has_value none = false
has_value (some a) = true

unfoldable pub is_quarantined : Detector → ℕ → Bool
is_quarantined d reader_id = elim (lookup reader_id d.readers) [
  | none ↦ false
  | some s ↦ has_value s.quarantine
]

unfoldable pub quarantine_info : Detector → ℕ → Option QuarantineInfo
quarantine_info d reader_id = elim (lookup reader_id d.readers) [
  | none ↦ none
  | some s ↦ s.quarantine
]

unfoldable pub report_replay : Detector → ℕ → ℕ → ℕ → Detector × AnomalyType
unfolding get_state set_state do_quarantine
report_replay d reader_id seq ts_ms =
    let s = get_state d reader_id in
    (
      set_state d reader_id (do_quarantine s seq_reuse ts_ms (codes "seq=" ++ to_string seq)),
      seq_reuse,
    )

-- `seq + rollbackThreshold` wraps at 64 bits.
unfoldable pub is_rollback : DetectorConfig → ℕ → ℕ → Bool
is_rollback c max_seen seq = ltb 0 max_seen && ltb ((seq + c.rollback_threshold) % u64_mod) max_seen

unfoldable pub report_seq : Detector → ℕ → ℕ → ℕ → Detector × Option AnomalyType
unfolding get_state set_state do_quarantine
report_seq d reader_id seq ts_ms =
    let s = get_state d reader_id in
    if is_rollback d.config s.max_seen_seq seq
    then (
      set_state d reader_id (
          do_quarantine s seq_rollback ts_ms
            ((codes "seq=" ++ to_string seq) ++ (codes " maxSeen=" ++ to_string s.max_seen_seq))),
      some seq_rollback,
    )
    else (
      set_state d reader_id
          (record s { max_seen_seq = if ltb s.max_seen_seq seq then seq else s.max_seen_seq }),
      none,
    )

unfoldable pub report_nonce_mismatch : Detector → ℕ → ℕ → Detector × AnomalyType
unfolding get_state set_state do_quarantine
report_nonce_mismatch d reader_id ts_ms = (
  set_state d reader_id (do_quarantine (get_state d reader_id) nonce_mismatch ts_ms []),
  nonce_mismatch,
)

-- The counter is a uint32_t.
unfoldable pub count_tag_failure : ReaderState → ReaderState
count_tag_failure s = record s { consecutive_tag_fails = (s.consecutive_tag_fails + 1) % u32_mod }

unfoldable pub report_tag_failure : Detector → ℕ → ℕ → Detector × Option AnomalyType
unfolding get_state set_state do_quarantine count_tag_failure
report_tag_failure d reader_id ts_ms =
    let s = count_tag_failure (get_state d reader_id) in
    if leb d.config.tag_fail_streak_limit s.consecutive_tag_fails
    then (
      set_state d reader_id (
          do_quarantine s tag_fail_streak ts_ms
            (codes "streak=" ++ to_string s.consecutive_tag_fails)),
      some tag_fail_streak,
    )
    else (set_state d reader_id s, none)

unfoldable pub report_success : Detector → ℕ → ℕ → Detector
unfolding get_state set_state
report_success d reader_id seq =
    let s = get_state d reader_id in
    set_state d reader_id (record s {
      consecutive_tag_fails = 0;
      max_seen_seq = if ltb s.max_seen_seq seq then seq else s.max_seen_seq;
    })

unfoldable pub unquarantine : Detector → ℕ → Detector × Bool
unfolding set_state
unquarantine d reader_id = elim (lookup reader_id d.readers) [
  | none ↦ (d, false)
  | some s ↦
      if has_value s.quarantine
      then (set_state d reader_id (record s { quarantine = none; consecutive_tag_fails = 0 }), true)
      else (d, false)
]

-- sodium_memcmp(received.data(), expected.data(), len) == 0
unfoldable pub nonce_equal : List ℕ → List ℕ → ℕ → Bool
nonce_equal received expected len = bytes_eq (take len received) (take len expected)
