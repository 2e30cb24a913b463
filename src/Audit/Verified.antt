-- ===== src/Audit/Verified.antt =====
-- What a successful verification says of the rows and of the anchor.
use mathlib.Core.Path.{subst}
use access_security_system_e.Common.{
  ℕ, ◌≡◌, ◌≢◌, ap, sym, ◌∙◌, true, some, List, [], ◌∷◌, ◌⊎◌, inl, inr, arith, bytes_eq,
  bytes_eq_sound, Option-cases, Sum-cases,
}
use access_security_system_e.Crypto.{Sodium}
use access_security_system_e.Audit.{
  AuditRow, AuditDb, zeros, VerifyResult, verified, verify_row, verify_rows, verify_anchor,
  verify_audit_chain,
}

inl-inr : {a : VerifyResult} {b : List ℕ} → ◌≡◌ {A = VerifyResult ⊎ List ℕ} (inl a) (inr b) → ⊥
inl-inr e = cc

inl-inj : {a b : VerifyResult} → ◌≡◌ {A = VerifyResult ⊎ List ℕ} (inl a) (inl b) → a ≡ b
inl-inj e = cc

module _ (lib : Sodium) (key : List ℕ) where
  row_error : (row : AuditRow) (prev : List ℕ) → verify_row lib key row prev ≢ some verified
  unfolding verify_row
  row_error row prev h = ground arith

  rows_error : (rows : List AuditRow) (prev : List ℕ) → verify_rows lib key rows prev ≢ inl verified
  unfolding verify_rows
  rows_error [] prev h = inl-inr (sym h)
  rows_error (row ∷ rows) prev h = elim (Option-cases (verify_row lib key row prev)) [
    | inl e ↦ rows_error rows row.fields.stored_entry (rw (verify_rows, e) at h)
    | inr (why, e) ↦ row_error row prev (e ∙ ap some (inl-inj (rw (verify_rows, e) at h)))
  ]

  -- A verified anchor is the last hash.
  verify_anchor_inv :
      (anchor last : List ℕ) → verify_anchor lib key (some anchor) last ≡ verified → anchor ≡ last
  unfolding verify_anchor
  verify_anchor_inv anchor last h =
      let same : bytes_eq anchor last ≡ true = ground arith in bytes_eq_sound anchor last same

  module _ {S : Type 0} (db : AuditDb S) where
    pub verified_inv :
        (s : S)
        → verify_audit_chain lib key db s ≡ verified
        → (last : List ℕ) × (verify_rows lib key (db.rows s) zeros ≡ inr last)
          × (verify_anchor lib key (db.anchor s) last ≡ verified)
    unfolding verify_audit_chain
    verified_inv s h = elim (Sum-cases (verify_rows lib key (db.rows s) zeros)) [
      | inr (last, e) ↦ (last, e, rw (verify_audit_chain, e) at h)
      | inl (why, e) ↦
          absurd (rows_error (db.rows s) zeros (e ∙ ap inl (rw (verify_audit_chain, e) at h)))
    ]

    pub verified_rows :
        (s : S) (anchor : List ℕ)
        → verify_audit_chain lib key db s ≡ verified
        → db.anchor s ≡ some anchor
        → verify_rows lib key (db.rows s) zeros ≡ inr anchor
    verified_rows s anchor h a =
        let (last, e, v) = verified_inv s h in
        let same : anchor ≡ last =
          verify_anchor_inv anchor last
            (subst (λ o. verify_anchor lib key o last ≡ verified) a v) in
        e ∙ ap (λ (o : List ℕ). inr o) (sym same)
