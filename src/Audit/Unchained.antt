-- ===== src/Audit/Unchained.antt =====
-- SqliteAuditLog with the chain disabled (cfg.experiment.auditChainEnabled), whose rows have hashes of
-- zeros, under verifyAuditChain.
use mathlib.Core.Path.{subst}
use access_security_system_e.Common.{
  ℕ, ◌≡◌, ◌≢◌, sym, true, false, none, some, List, [], ◌∷◌, ◌++◌, ◌⊎◌, inl, inr, arith, bytes_eq,
  bytes_eq_sound, Option-cases,
}
use access_security_system_e.Crypto.{Sodium}
use access_security_system_e.Engine.{AuditEvent}
use access_security_system_e.Audit.Verified.{verified_inv}
use access_security_system_e.Audit.{
  AuditRow, AuditDb, HasTables, VerifyResult, zeros, verified, bound_row, compute_entry_hash,
  verify_row, verify_rows, verify_audit_chain, append,
}

inl-inr : {a : VerifyResult} {b : List ℕ} → ◌≡◌ {A = VerifyResult ⊎ List ℕ} (inl a) (inr b) → ⊥
inl-inr e = cc

module _ (lib : Sodium) (key : List ℕ) where
  pub last_row :
      (rows : List AuditRow) (row : AuditRow) (prev end : List ℕ)
      → verify_rows lib key (rows ++ row ∷ []) prev ≡ inr end
      → (last : List ℕ) × (verify_row lib key row last ≡ none)
  unfolding verify_rows
  last_row [] row prev end h = elim (Option-cases (verify_row lib key row prev)) [
    | inl e ↦ (prev, e)
    | inr (why, e) ↦ absurd (inl-inr (rw (verify_rows, e) at h))
  ]
  last_row (x ∷ rows) row prev end h = elim (Option-cases (verify_row lib key x prev)) [
    | inl e ↦ last_row rows row x.fields.stored_entry end (rw (verify_rows, e) at h)
    | inr (why, e) ↦ absurd (inl-inr (rw (verify_rows, e) at h))
  ]

  pub hashes_match :
      (row : AuditRow) (last : List ℕ)
      → verify_row lib key row last ≡ none
      → (row.fields.stored_prev ≡ last)
        × (row.fields.stored_entry ≡ compute_entry_hash lib key last row.fields)
  unfolding verify_row
  hashes_match row last h =
      let entry = compute_entry_hash lib key last row.fields in
      let same_prev : bytes_eq row.fields.stored_prev last ≡ true = ground arith in
      let same_entry : bytes_eq row.fields.stored_entry entry ≡ true = ground arith in
      (
        bytes_eq_sound row.fields.stored_prev last same_prev,
        bytes_eq_sound row.fields.stored_entry entry same_entry,
      )

  module _ {S : Type 0} (db : AuditDb S) (tables : HasTables db) where
    unchained_inv :
        (s s' : S) (e : AuditEvent)
        → append lib key db false s e ≡ some s'
        → verify_audit_chain lib key db s' ≡ verified
        → compute_entry_hash lib key zeros (bound_row e zeros zeros) ≡ zeros
    unfolding append bound_row
    unchained_inv s s' e done h =
        let x = bound_row e zeros zeros in
        let (id, r, a) = tables.inserted s s' x done in
        let (end, walked, anchored) = verified_inv lib key db s' h in
        let row : AuditRow = record { id = id; fields = x } in
        let (last, good) =
          last_row (db.rows s) row zeros end
            (subst (λ l. verify_rows lib key l zeros ≡ inr end) r walked) in
        let (same_prev, same_entry) = hashes_match row last good in
        subst (λ p. compute_entry_hash lib key p x ≡ zeros) (sym same_prev) (sym same_entry)

    -- Where the statements obey the laws of the tables: a log to which `append` has added an event
    -- with the chain disabled does not verify, whatever was in it before, if the event's HMAC after
    -- zeros is not zeros itself.
    pub unchained_refused :
        (s s' : S) (e : AuditEvent)
        → append lib key db false s e ≡ some s'
        → compute_entry_hash lib key zeros (bound_row e zeros zeros) ≢ zeros
        → verify_audit_chain lib key db s' ≢ verified
    unchained_refused s s' e done other h = other (unchained_inv s s' e done h)
