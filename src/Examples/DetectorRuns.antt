-- ===== src/Examples/DetectorRuns.antt =====
-- The anomaly detector at small inputs.
use access_security_system_e.Common.{
  ◌≤◌, ◌≡◌, refl, arith, true, some, [], ◌∷◌, ◌==◌, if◌then◌else◌,
}
use access_security_system_e.Common.Maps.{lookup}
use access_security_system_e.Detector.{
  Detector, DetectorConfig, fresh_reader, get_state, is_quarantined, report_seq, seq_rollback,
  nonce_mismatch,
}
use access_security_system_e.Detector.Reports.{
  replay, success, bad_tag, received, report, report_all, next, get_state-report,
}
use access_security_system_e.Detector.Quarantine.{report_all_keeps, report_all_raises}
use access_security_system_e.Detector.Thresholds.{report_seq_wraps}

abbrev limits : DetectorConfig
limits = record { enabled = true; rollback_threshold = 10; tag_fail_streak_limit = 3 }

-- Reader 1 has reached number 50, reader 2 is in quarantine.
abbrev two_readers : Detector
two_readers = record {
  config = limits;
  readers =
      (1, record fresh_reader { max_seen_seq = 50 })
      ∷ (
        2,
        record fresh_reader {
          quarantine = some (record { ts_unix_ms = 3; reason = nonce_mismatch; detail = [] });
        },
      )
      ∷ [];
}

get_state-report_example : get_state (report two_readers (replay 1 50 7)) 2 ≡ (
    if 1 == 2
    then next limits (replay 1 50 7) (get_state two_readers 2)
    else get_state two_readers 2)
get_state-report_example = get_state-report two_readers (replay 1 50 7) 2

report_all_keeps_example :
    is_quarantined (report_all two_readers (success 2 5 ∷ success 1 51 ∷ [])) 2 ≡ true
unfolding is_quarantined lookup
report_all_keeps_example = report_all_keeps two_readers (success 2 5 ∷ success 1 51 ∷ []) 2 refl

report_all_raises_example :
    (get_state two_readers 1).max_seen_seq
    ≤ (get_state (report_all two_readers (received 1 45 7 ∷ bad_tag 1 8 ∷ [])) 1).max_seen_seq
report_all_raises_example = report_all_raises two_readers (received 1 45 7 ∷ bad_tag 1 8 ∷ []) 1

report_seq_wraps_example : (report_seq two_readers 1 18446744073709551615 7).1 ≡ some seq_rollback
unfolding get_state lookup
report_seq_wraps_example =
    report_seq_wraps two_readers 1 18446744073709551615 7 (omega arith) (omega arith) (omega arith)
      (omega arith)
