-- ===== src/Detector/Quarantine.antt =====
-- A quarantine is entered by reports and left only by `unquarantine` of that reader.
use access_security_system_e.Common.{
  ℕ, ◌≤◌, ◌≡◌, refl, true, ◌&&◌, List, [], ◌∷◌, none, arith, ◌==◌, if◌then◌else◌, Option-cases, inl,
  inr,
}
use access_security_system_e.Common.Maps.{lookup, lookup-update}
use access_security_system_e.Detector.{
  Detector, DetectorConfig, ReaderState, get_state, set_state, is_quarantined, has_value,
  unquarantine,
}
use access_security_system_e.Detector.Reports.{
  Report, replay, received, bad_nonce, bad_tag, success, next, report, report_all, get_state-report,
  is_quarantined-get_state,
}

next_keeps :
    (c : DetectorConfig) (x : Report) (s : ReaderState)
    → has_value s.quarantine ≡ true
    → has_value (next c x s).quarantine ≡ true
unfolding next
next_keeps c (replay r seq ts) s h = refl
next_keeps c (received r seq ts) s h = ground arith
next_keeps c (bad_nonce r ts) s h = refl
next_keeps c (bad_tag r ts) s h = ground arith
next_keeps c (success r seq) s h = h

pub report_keeps :
    (d : Detector) (x : Report) (j : ℕ)
    → is_quarantined d j ≡ true
    → is_quarantined (report d x) j ≡ true
report_keeps d x j h = rw (is_quarantined-get_state (report d x) j) (
    ground (
      arith,
      get_state-report d x j,
      is_quarantined-get_state d j,
      next_keeps d.config x (get_state d j),
    ))

-- A reader in quarantine stays in quarantine through every sequence of reports about any readers,
-- successes included.
pub report_all_keeps :
    (d : Detector) (xs : List Report) (j : ℕ)
    → is_quarantined d j ≡ true
    → is_quarantined (report_all d xs) j ≡ true
unfolding report_all
report_all_keeps d [] j h = h
report_all_keeps d (x ∷ xs) j h = report_all_keeps (report d x) xs j (report_keeps d x j h)

-- `unquarantine` answers whether the reader was in quarantine. If it was, its entry loses the
-- quarantine and the failure streak and keeps the rest; every other entry stays as it was, and all
-- entries do if it was not.
pub unquarantine_lem :
    (d : Detector) (r j : ℕ)
    → ((unquarantine d r).1 ≡ is_quarantined d r)
      × (get_state (unquarantine d r).0 j ≡ (
          if (r == j) && is_quarantined d r
          then record (get_state d j) { quarantine = none; consecutive_tag_fails = 0 }
          else get_state d j))
unfolding unquarantine is_quarantined get_state set_state
unquarantine_lem d r j = elim (Option-cases (lookup r d.readers)) [
  | inl e ↦ ground arith
  | inr (s, e) ↦ ground (
    arith,
    lookup-update j r (record s { quarantine = none; consecutive_tag_fails = 0 }) d.readers,
  )
]

next_raises :
    (c : DetectorConfig) (x : Report) (s : ReaderState) → s.max_seen_seq ≤ (next c x s).max_seen_seq
unfolding next
next_raises c (replay r seq ts) s = omega arith
next_raises c (received r seq ts) s = ground arith
next_raises c (bad_nonce r ts) s = omega arith
next_raises c (bad_tag r ts) s = ground arith
next_raises c (success r seq) s = ground arith

-- The highest sequence number recorded for a reader never falls, whatever is reported.
pub report_all_raises :
    (d : Detector) (xs : List Report) (j : ℕ)
    → (get_state d j).max_seen_seq ≤ (get_state (report_all d xs) j).max_seen_seq
unfolding report_all
report_all_raises d [] j = omega arith
report_all_raises d (x ∷ xs) j = ground (
  arith,
  get_state-report d x j,
  next_raises d.config x (get_state d j),
  report_all_raises (report d x) xs j,
)
