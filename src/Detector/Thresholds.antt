-- ===== src/Detector/Thresholds.antt =====
-- When the streak of tag failures and a sequence rollback put a reader in quarantine.
use native.Mathlib.Nat.{mod-eq_of_lt}
use access_security_system_e.Common.{
  ℕ, zero, suc, ◌+◌, ◌≤◌, ◌<◌, ◌%◌, ◌≡◌, ap, ◌∙◌, Bool, true, false, List, none, some, arith, ltb,
  leb, if◌then◌else◌, ==_refl, replicate, Bool-cases, inl, inr, ◌||◌,
}
use access_security_system_e.Protocol.Codec.{u32_mod, u64_mod}
use access_security_system_e.Detector.{
  Detector, DetectorConfig, get_state, is_quarantined, is_rollback, report_seq, seq_rollback,
}
use access_security_system_e.Detector.Quarantine.{report_all_keeps}
use access_security_system_e.Detector.Reports.{
  Report, received, bad_tag, next, report, report_all, get_state-report, config-report,
  is_quarantined-get_state,
}

-- `n` failures of one reader, one after the other.
pub failures : ℕ → ℕ → ℕ → List Report
failures n r ts = replicate n (bad_tag r ts)

streak_step :
    (d : Detector) (r ts k : ℕ)
    → (get_state d r).consecutive_tag_fails ≡ k
    → k + 1 < u32_mod
    → ((get_state (report d (bad_tag r ts)) r).consecutive_tag_fails ≡ k + 1)
      × (is_quarantined (report d (bad_tag r ts)) r
          ≡ (if leb d.config.tag_fail_streak_limit (k + 1) then true else is_quarantined d r))
unfolding next
streak_step d r ts k e h =
    rw (is_quarantined-get_state (report d (bad_tag r ts)) r, is_quarantined-get_state d r)
      (ground (arith, get_state-report d (bad_tag r ts) r))

streak :
    (n k : ℕ) (d : Detector) (r ts : ℕ)
    → (get_state d r).consecutive_tag_fails ≡ k
    → k < d.config.tag_fail_streak_limit
    → is_quarantined d r ≡ false
    → k + n < u32_mod
    → is_quarantined (report_all d (failures n r ts)) r ≡ leb d.config.tag_fail_streak_limit (k + n)
unfolding report_all failures
streak zero k d r ts e l q h = ground arith
streak (suc n) k d r ts e l q h =
    let d' = report d (bad_tag r ts) in
    let (fails, quarantined) = streak_step d r ts k e (omega arith) in
    let limit : d'.config.tag_fail_streak_limit ≡ d.config.tag_fail_streak_limit =
      ap (λ (c : DetectorConfig). c.tag_fail_streak_limit) (config-report d (bad_tag r ts)) in
    elim (Bool-cases (leb d.config.tag_fail_streak_limit (k + 1))) [
      | inl reached ↦
          ground (arith, report_all_keeps d' (replicate n (bad_tag r ts)) r, reached, quarantined)
      | inr below ↦ ground (arith, limit, below, quarantined, fails, streak n (k + 1) d' r ts)
    ]

-- A reader that is not in quarantine and has no open streak is put in quarantine by the failure
-- that makes the streak as long as the limit, and by none before it.
pub report_all-failures :
    (n : ℕ) (d : Detector) (r ts : ℕ)
    → (get_state d r).consecutive_tag_fails ≡ 0
    → 0 < d.config.tag_fail_streak_limit
    → is_quarantined d r ≡ false
    → n < u32_mod
    → is_quarantined (report_all d (failures n r ts)) r ≡ leb d.config.tag_fail_streak_limit n
report_all-failures n d r ts e l q h =
    streak n 0 d r ts e l q (omega arith) ∙ ap (leb d.config.tag_fail_streak_limit) (omega arith)

after_report_seq :
    (d : Detector) (r seq ts : ℕ)
    → get_state (report_seq d r seq ts).0 r ≡ next d.config (received r seq ts) (get_state d r)
unfolding report
after_report_seq d r seq ts =
    get_state-report d (received r seq ts) r
    ∙ ap (λ b. if b then next d.config (received r seq ts) (get_state d r) else get_state d r)
        (==_refl r)

answer :
    (d : Detector) (r seq ts : ℕ)
    → (report_seq d r seq ts).1
      ≡ (if is_rollback d.config (get_state d r).max_seen_seq seq then some seq_rollback else none)
unfolding report_seq
answer d r seq ts = ground arith

-- `report_seq` answers with a rollback, and then puts the reader in quarantine, exactly when the
-- number is more than the threshold below the highest one; it leaves the highest number as it was
-- then, and otherwise raises it to the number received. This holds while the sum of the number
-- and the threshold fits in 64 bits.
pub report_seq_lem :
    (d : Detector) (r seq ts : ℕ)
    → seq + d.config.rollback_threshold < u64_mod
    → let top : ℕ = (get_state d r).max_seen_seq in
      let far_below : Bool = ltb (seq + d.config.rollback_threshold) top in
      ((report_seq d r seq ts).1 ≡ (if far_below then some seq_rollback else none))
      × (is_quarantined (report_seq d r seq ts).0 r ≡ (far_below || is_quarantined d r))
      × ((get_state (report_seq d r seq ts).0 r).max_seen_seq
          ≡ (if far_below then top else if ltb top seq then seq else top))
unfolding next is_rollback
report_seq_lem d r seq ts h =
    let fits : (seq + d.config.rollback_threshold) % u64_mod ≡ seq + d.config.rollback_threshold =
      mod-eq_of_lt h in
    (
      ground (arith, answer d r seq ts, fits),
      rw
          (
            is_quarantined-get_state (report_seq d r seq ts).0 r,
            is_quarantined-get_state d r,
            after_report_seq d r seq ts,
          )
          (ground (arith, fits)),
      rw (after_report_seq d r seq ts) (ground (arith, fits)),
    )

-- Close to 2^64 the sum wraps: a number above the highest one seen is then taken for a rollback.
pub report_seq_wraps :
    (d : Detector) (r seq ts : ℕ)
    → seq < u64_mod
    → u64_mod ≤ seq + d.config.rollback_threshold
    → seq + d.config.rollback_threshold < u64_mod + (get_state d r).max_seen_seq
    → (get_state d r).max_seen_seq < seq
    → (report_seq d r seq ts).1 ≡ some seq_rollback
unfolding report_seq is_rollback
report_seq_wraps d r seq ts hs wrap low new = ground arith
