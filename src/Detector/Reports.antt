-- ===== src/Detector/Reports.antt =====
-- The calls that the engine and the administrator make on the detector, as steps, and what each
-- leaves in the entry of a reader.
use access_security_system_e.Common.{
  ℕ, ◌≡◌, refl, List, [], ◌∷◌, ◌++◌, arith, ltb, leb, ◌==◌, if◌then◌else◌,
}
use access_security_system_e.Common.Maps.{lookup-update}
use access_security_system_e.Common.Text.{codes}
use access_security_system_e.Common.Decimal.{to_string}
use access_security_system_e.Detector.{
  Detector, DetectorConfig, ReaderState, get_state, set_state, is_quarantined, quarantine_info,
  has_value, do_quarantine, report_replay, report_seq, report_nonce_mismatch, report_tag_failure,
  report_success, count_tag_failure, is_rollback, seq_reuse, seq_rollback, nonce_mismatch,
  tag_fail_streak,
}

-- Every report names the reader first.
pub data Report : Type 0 where
  replay : ℕ → ℕ → ℕ → Report
  received : ℕ → ℕ → ℕ → Report
  bad_nonce : ℕ → ℕ → Report
  bad_tag : ℕ → ℕ → Report
  success : ℕ → ℕ → Report

abbrev pub reader_of : Report → ℕ
reader_of (replay r seq ts) = r
reader_of (received r seq ts) = r
reader_of (bad_nonce r ts) = r
reader_of (bad_tag r ts) = r
reader_of (success r seq) = r

unfoldable pub report : Detector → Report → Detector
report d (replay r seq ts) = (report_replay d r seq ts).0
report d (received r seq ts) = (report_seq d r seq ts).0
report d (bad_nonce r ts) = (report_nonce_mismatch d r ts).0
report d (bad_tag r ts) = (report_tag_failure d r ts).0
report d (success r seq) = report_success d r seq

unfoldable pub report_all : Detector → List Report → Detector
report_all d [] = d
report_all d (x ∷ xs) = report_all (report d x) xs

pub get_state-set_state :
    (d : Detector) (r j : ℕ) (s : ReaderState)
    → get_state (set_state d r s) j ≡ (if r == j then s else get_state d j)
unfolding get_state set_state
get_state-set_state d r j s = ground (arith, lookup-update j r s d.readers)

pub is_quarantined-get_state :
    (d : Detector) (r : ℕ) → is_quarantined d r ≡ has_value (get_state d r).quarantine
unfolding is_quarantined get_state
is_quarantined-get_state d r = ground arith

-- The information that is returned is that of the reader's state, and it is there exactly when the
-- reader is quarantined.
pub has_value-quarantine_info :
    (d : Detector) (r : ℕ) → has_value (quarantine_info d r) ≡ is_quarantined d r
unfolding is_quarantined quarantine_info
has_value-quarantine_info d r = ground arith

pub higher : ReaderState → ℕ → ReaderState
higher s seq = record s { max_seen_seq = if ltb s.max_seen_seq seq then seq else s.max_seen_seq }

-- The state machine of one reader.
unfoldable pub next : DetectorConfig → Report → ReaderState → ReaderState
unfolding do_quarantine count_tag_failure higher
next c (replay r seq ts) s = do_quarantine s seq_reuse ts (codes "seq=" ++ to_string seq)
next c (received r seq ts) s =
    if is_rollback c s.max_seen_seq seq
    then do_quarantine s seq_rollback ts
        ((codes "seq=" ++ to_string seq) ++ (codes " maxSeen=" ++ to_string s.max_seen_seq))
    else higher s seq
next c (bad_nonce r ts) s = do_quarantine s nonce_mismatch ts []
next c (bad_tag r ts) s =
    let t = count_tag_failure s in
    if leb c.tag_fail_streak_limit t.consecutive_tag_fails
    then do_quarantine t tag_fail_streak ts (codes "streak=" ++ to_string t.consecutive_tag_fails)
    else t
next c (success r seq) s = record (higher s seq) { consecutive_tag_fails = 0 }

-- Every report is one step of its reader's machine, written back.
pub report_lem :
    (d : Detector) (x : Report)
    → report d x ≡ set_state d (reader_of x) (next d.config x (get_state d (reader_of x)))
unfolding report report_replay report_seq report_nonce_mismatch report_tag_failure report_success
    next
report_lem d (replay r seq ts) = refl
report_lem d (received r seq ts) = ground arith
report_lem d (bad_nonce r ts) = refl
report_lem d (bad_tag r ts) = ground arith
report_lem d (success r seq) = refl

-- The detector is one independent machine for each reader: a report moves the machine of the reader
-- that it names, and no other.
pub get_state-report :
    (d : Detector) (x : Report) (j : ℕ)
    → get_state (report d x) j
      ≡ (if reader_of x == j then next d.config x (get_state d j) else get_state d j)
get_state-report d x j = rw (report_lem d x) (
    ground
      (arith, get_state-set_state d (reader_of x) j (next d.config x (get_state d (reader_of x)))))

pub config-report : (d : Detector) (x : Report) → (report d x).config ≡ d.config
config-report d x = rw (report_lem d x) (unfold set_state in refl)
