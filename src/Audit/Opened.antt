-- ===== src/Audit/Opened.antt =====
-- The constructor of SqliteAuditLog: its tables, and logs that are opened, appended to and opened
-- again.
use mathlib.Core.Path.{subst}
use access_security_system_e.Common.{
  ℕ, ◌≡◌, ◌≢◌, refl, sym, ap, ◌∙◌, Bool, true, false, Option, none, some, List, [], ◌∷◌, ◌⊎◌, inl,
  inr, Option-cases, All, bytes_eq,
}
use access_security_system_e.Crypto.{Sodium, HasHmacLength}
use access_security_system_e.Engine.{AuditEvent}
use access_security_system_e.Audit.{
  AuditRow, AuditDb, step_failed, HasTables, VerifyResult, zeros, verified, verify_rows,
  verify_anchor, verify_audit_chain, append,
}
use access_security_system_e.Audit.Verified.{verified_inv}
use access_security_system_e.Audit.Chain.{IsText, append_chained-verify}

pub record AuditSchema (S : Type 0) : Type 0 where
  -- CREATE TABLE IF NOT EXISTS and CREATE INDEX IF NOT EXISTS, and whether all succeeded
  pub create : S → S × Bool
  -- INSERT OR IGNORE INTO audit_anchor
  pub insert_anchor : S → List ℕ → ℕ → Option S

-- INSERT OR IGNORE adds no second row with the same id.
unfoldable pub or_new : Option (List ℕ) → List ℕ → Option (List ℕ)
or_new none new = some new
or_new (some old) new = some old

-- A table that is not there reads as one without rows; creating tables changes no row.
pub record HasSchema {S : Type 0} (db : AuditDb S) (schema : AuditSchema S) : Type 0 where
  pub created :
      (s : S)
      → let s' = (schema.create s).0 in (db.rows s' ≡ db.rows s) × (db.anchor s' ≡ db.anchor s)
  pub anchored :
      (s s' : S) (new : List ℕ) (ts : ℕ)
      → schema.insert_anchor s new ts ≡ some s'
      → (db.rows s' ≡ db.rows s) × (db.anchor s' ≡ or_new (db.anchor s) new)

-- The state after the anchor's statement, which runs when the tables are there.
unfoldable pub anchor_added : {S : Type 0} → S → Bool → Option S → S × Bool
anchor_added s1 false added = (s1, false)
anchor_added s1 true none = (s1, false)
anchor_added s1 true (some s2) = (s2, true)

-- initSchema; `false` is its exception.
unfoldable pub init_schema : {S : Type 0} → AuditSchema S → S → S × Bool
unfolding anchor_added
init_schema schema s =
    let (s1, ok) = schema.create s in anchor_added s1 ok (schema.insert_anchor s1 zeros 0)

anchor_added-cases :
    {S : Type 0} (s1 : S) (ok : Bool) (added : Option S)
    → ((anchor_added s1 ok added).0 ≡ s1)
      ⊎ ((s2 : S) × (added ≡ some s2) × ((anchor_added s1 ok added).0 ≡ s2))
unfolding anchor_added
anchor_added-cases s1 false added = inl refl
anchor_added-cases s1 true none = inl refl
anchor_added-cases s1 true (some s2) = inr (s2, refl, refl)

anchor_added_inv :
    {S : Type 0} (s1 s0 : S) (ok : Bool) (added : Option S)
    → anchor_added s1 ok added ≡ (s0, true)
    → added ≡ some s0
unfolding anchor_added
anchor_added_inv s1 s0 false added h = absurd (cc)
anchor_added_inv s1 s0 true none h = absurd (cc)
anchor_added_inv s1 s0 true (some s2) h = ap (λ x. some x.0) h

-- What happens to a log: the server starts again, or an event is appended.
pub data LogStep : Type 0 where
  reopened : LogStep
  logged : AuditEvent → LogStep

unfoldable pub HasText : LogStep → Type 0
HasText reopened = Unit
HasText (logged e) = IsText e

-- `append` that throws has rolled its transaction back.
unfoldable or_same : {S : Type 0} → S → Option S → S
or_same s none = s
or_same s (some s') = s'

module _ (lib : Sodium) (key : List ℕ) {S : Type 0} (db : AuditDb S) (schema : AuditSchema S) where
  abbrev verdict : List AuditRow → Option (List ℕ) → VerifyResult
  unfolding verify_rows verify_anchor
  verdict rows anchor = elim (verify_rows lib key rows zeros) [
    | inl e ↦ e
    | inr last ↦ verify_anchor lib key anchor last
  ]

  no_anchor : (last : List ℕ) → verify_anchor lib key none last ≢ verified
  unfolding verify_anchor
  no_anchor last h = absurd (cc)

  unfoldable log_step : S → LogStep → S
  unfolding init_schema append or_same
  log_step s reopened = (init_schema schema s).0
  log_step s (logged e) = or_same s (append lib key db true s e)

  unfoldable pub run_log : S → List LogStep → S
  unfolding log_step
  run_log s [] = s
  run_log s (x ∷ xs) = run_log (log_step s x) xs

  module _ (law : HasHmacLength lib) (tables : HasTables db) (defined : HasSchema db schema)
      (reads : (s : S) → db.read_last s ≢ step_failed) where
    -- initSchema leaves the rows and an anchor that is there, also when it fails.
    init_schema-keeps :
        (s : S) (old : List ℕ)
        → db.anchor s ≡ some old
        → let s' = (init_schema schema s).0 in (db.rows s' ≡ db.rows s) × (db.anchor s' ≡ some old)
    unfolding init_schema or_new
    init_schema-keeps s old h =
        let s1 = (schema.create s).0 in
        let (r1, a1) = defined.created s in
        elim (anchor_added-cases s1 (schema.create s).1 (schema.insert_anchor s1 zeros 0)) [
          | inl e ↦ (ap db.rows e ∙ r1, ap db.anchor e ∙ a1 ∙ h)
          | inr (s2, added, e) ↦
              (let (r2, a2) = defined.anchored s1 s2 zeros 0 added in
                (ap db.rows e ∙ r2 ∙ r1, ap db.anchor e ∙ a2 ∙ ap (λ o. or_new o zeros) (a1 ∙ h)))
        ]

    anchor_present :
        (s : S)
        → verify_audit_chain lib key db s ≡ verified
        → (old : List ℕ) × (db.anchor s ≡ some old)
    unfolding verify_anchor
    anchor_present s h =
        let (last, rows, anchored) = verified_inv lib key db s h in
        elim (Option-cases (db.anchor s)) [
          | inr found ↦ found
          | inl e ↦ absurd (no_anchor last (rw (e) at anchored))
        ]

    verified_same :
        (s s' : S)
        → db.rows s' ≡ db.rows s
        → db.anchor s' ≡ db.anchor s
        → verify_audit_chain lib key db s ≡ verified
        → verify_audit_chain lib key db s' ≡ verified
    unfolding verify_audit_chain
    verified_same s s' r a h =
        subst (λ x. verdict x (db.anchor s') ≡ verified) (sym r)
          (subst (λ x. verdict (db.rows s) x ≡ verified) (sym a) h)

    log_step-verify :
        (s : S) (x : LogStep)
        → HasText x
        → verify_audit_chain lib key db s ≡ verified
        → verify_audit_chain lib key db (log_step s x) ≡ verified
    unfolding log_step or_same HasText
    log_step-verify s reopened t h =
        let (old, present) = anchor_present s h in
        let (r, a) = init_schema-keeps s old present in
        verified_same s (init_schema schema s).0 r (a ∙ sym present) h
    log_step-verify s (logged e) t h = elim (Option-cases (append lib key db true s e)) [
      | inl f ↦ rw (log_step, f) h
      | inr (s', f) ↦
          rw (log_step, f) (append_chained-verify lib law key db tables s s' e t (reads s) h f)
    ]

    run_log-verify :
        (s : S) (xs : List LogStep)
        → All HasText xs
        → verify_audit_chain lib key db s ≡ verified
        → verify_audit_chain lib key db (run_log s xs) ≡ verified
    unfolding run_log
    run_log-verify s [] t h = h
    run_log-verify s (x ∷ xs) t h = run_log-verify (log_step s x) xs t.1 (log_step-verify s x t.0 h)

    first_open-verify :
        (s s0 : S)
        → db.rows s ≡ []
        → db.anchor s ≡ none
        → init_schema schema s ≡ (s0, true)
        → verify_audit_chain lib key db s0 ≡ verified
    unfolding init_schema or_new verify_audit_chain verify_rows verify_anchor bytes_eq
    first_open-verify s s0 r a done =
        let s1 = (schema.create s).0 in
        let (r1, a1) = defined.created s in
        let added =
          anchor_added_inv s1 s0 (schema.create s).1 (schema.insert_anchor s1 zeros 0) done in
        let (r2, a2) = defined.anchored s1 s0 zeros 0 added in
        subst (λ x. verdict x (db.anchor s0) ≡ verified) (sym (r2 ∙ r1 ∙ r))
          (subst (λ x. verdict [] x ≡ verified) (sym (a2 ∙ ap (λ o. or_new o zeros) (a1 ∙ a))) refl)

    -- Where an HMAC has 32 bytes and the statements obey the laws of the tables: when a database
    -- without rows and without an anchor is opened, and then any events without NULs in their texts
    -- are appended with the chain enabled and the log is opened again any number of times, in any
    -- order, the log verifies at the end. On the way statements may fail, or not be prepared, except
    -- that the step which reads the last entry's hash must not fail.
    pub run_log-opened :
        (s s0 : S) (xs : List LogStep)
        → db.rows s ≡ []
        → db.anchor s ≡ none
        → init_schema schema s ≡ (s0, true)
        → All HasText xs
        → verify_audit_chain lib key db (run_log s0 xs) ≡ verified
    run_log-opened s s0 xs r a done t = run_log-verify s0 xs t (first_open-verify s s0 r a done)
