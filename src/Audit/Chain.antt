-- ===== src/Audit/Chain.antt =====
-- The chain of the audit log: what `append` adds, `verifyAuditChain` accepts.
use mathlib.Core.Path.{subst}
use access_security_system_e.Common.{
  ℕ, ◌≡◌, ◌≢◌, refl, sym, ◌∙◌, true, Option, none, some, List, [], ◌∷◌, ◌++◌, ◌⊎◌, inl, inr, arith,
  length, bytes_eq_refl, Option-cases, All,
}
use access_security_system_e.Common.Text.{codes, c_str}
use access_security_system_e.Crypto.{Sodium, HasHmacLength}
use access_security_system_e.Engine.{AuditEvent}
use access_security_system_e.Audit.Verified.{verified_inv}
use access_security_system_e.Audit.{
  RowFields, AuditRow, AuditDb, HasTables, event_bytes, zeros, fields_of, bound_row, newest_hash,
  last_entry_hash, Read, not_prepared, step_failed, step_done, VerifyResult, verified,
  compute_entry_hash, verify_row, verify_rows, verify_anchor, verify_audit_chain, append_chained,
  append,
}

abbrev NotNul : ℕ → Type 0
NotNul b = b ≢ 0

-- The texts of the event have no NUL inside.
pub record IsText (e : AuditEvent) : Type 0 where
  pub reason_text : All NotNul (codes e.reason)
  pub card_text : All NotNul e.card_id
  pub action_text : All NotNul e.action

c_str-same : (s : List ℕ) → All NotNul s → c_str s ≡ s
unfolding c_str
c_str-same [] h = refl
c_str-same (b ∷ s) h = ground (arith, c_str-same s h.1, h.0)

inl-inr : {a : VerifyResult} {b : List ℕ} → ◌≡◌ {A = VerifyResult ⊎ List ℕ} (inl a) (inr b) → ⊥
inl-inr e = cc

inl-inj : {a b : VerifyResult} → ◌≡◌ {A = VerifyResult ⊎ List ℕ} (inl a) (inl b) → a ≡ b
inl-inj e = cc

none-some : {S : Type 0} {s : S} → none ≡ some s → ⊥
none-some e = cc

inr-inj : {a b : List ℕ} → ◌≡◌ {A = VerifyResult ⊎ List ℕ} (inr a) (inr b) → a ≡ b
inr-inj e = cc

last_entry_hash-cases :
    (r : Read) (rows : List AuditRow) (last : List ℕ)
    → r ≢ step_failed
    → newest_hash zeros rows ≡ some last
    → (last_entry_hash r rows ≡ none) ⊎ (last_entry_hash r rows ≡ some last)
unfolding last_entry_hash
last_entry_hash-cases not_prepared rows last h e = inl refl
last_entry_hash-cases step_failed rows last h e = absurd (h refl)
last_entry_hash-cases step_done rows last h e = inr e

module _ (lib : Sodium) (law : HasHmacLength lib) (key : List ℕ) where
  verify_row_inv :
      (row : AuditRow) (prev : List ℕ)
      → verify_row lib key row prev ≡ none
      → length row.fields.stored_entry ≡ 32
  unfolding verify_row
  verify_row_inv row prev h = ground arith

  -- The last hash of a verified log is the one that `append` reads.
  pub last-verify_rows :
      (rows : List AuditRow) (prev last : List ℕ)
      → length prev ≡ 32
      → verify_rows lib key rows prev ≡ inr last
      → newest_hash prev rows ≡ some last
  unfolding verify_rows newest_hash
  last-verify_rows [] prev last n h = ground arith
  last-verify_rows (row ∷ rows) prev last n h = elim (Option-cases (verify_row lib key row prev)) [
    | inl e ↦
        last-verify_rows rows row.fields.stored_entry last (verify_row_inv row prev e)
          (rw (verify_rows, e) at h)
    | inr (why, e) ↦ absurd (inl-inr (rw (verify_rows, e) at h))
  ]

  verify_rows-append :
      (rows : List AuditRow) (row : AuditRow) (prev last : List ℕ)
      → verify_rows lib key rows prev ≡ inr last
      → verify_row lib key row last ≡ none
      → verify_rows lib key (rows ++ row ∷ []) prev ≡ inr row.fields.stored_entry
  unfolding verify_rows
  verify_rows-append [] row prev last h good =
      rw (verify_rows, subst (λ l. verify_row lib key row l ≡ none) (sym (inr-inj h)) good) refl
  verify_rows-append (x ∷ rows) row prev last h good =
      elim (Option-cases (verify_row lib key x prev)) [
        | inl e ↦
            rw (verify_rows, e)
              (verify_rows-append rows row x.fields.stored_entry last (rw (verify_rows, e) at h)
                good)
        | inr (why, e) ↦ absurd (inl-inr (rw (verify_rows, e) at h))
      ]

  -- A row that `append` binds is accepted after the entry that it names.
  bound_row-verify :
      (i : ℕ) (e : AuditEvent) (prev : List ℕ)
      → IsText e
      → length prev ≡ 32
      → let entry = compute_entry_hash lib key prev (fields_of e) in
        verify_row lib key (record { id = i; fields = bound_row e prev entry }) prev ≡ none
  unfolding verify_row bound_row compute_entry_hash event_bytes fields_of
  bound_row-verify i e prev t n =
      rw
        (
          c_str-same (codes e.reason) t.reason_text,
          c_str-same e.card_id t.card_text,
          c_str-same e.action t.action_text,
          n,
          law.hmac_length key,
          bytes_eq_refl prev,
          bytes_eq_refl,
        )
        refl

  length-newest_hash :
      (rows : List AuditRow) (prev last : List ℕ)
      → newest_hash prev rows ≡ some last
      → length last ≡ 32
  unfolding newest_hash
  length-newest_hash [] prev last h = ground arith
  length-newest_hash (row ∷ rows) prev last h =
      length-newest_hash rows row.fields.stored_entry last h

  anchor_follows :
      (prev : List ℕ) (x : RowFields)
      → let entry = compute_entry_hash lib key prev x in
        verify_anchor lib key (some entry) entry ≡ verified
  unfolding verify_anchor compute_entry_hash
  anchor_follows prev x = rw (law.hmac_length key, bytes_eq_refl) refl

  pub anchor_inv :
      (a : Option (List ℕ)) (last : List ℕ)
      → verify_anchor lib key a last ≡ verified
      → (old : List ℕ) × (a ≡ some old)
  unfolding verify_anchor
  anchor_inv none last h = absurd (cc)
  anchor_inv (some old) last h = (old, refl)

  module _ {S : Type 0} (db : AuditDb S) (tables : HasTables db) where
    -- The two statements of `append` on a verified log.
    chain_extended :
        (s s1 s' : S) (e : AuditEvent) (last old : List ℕ)
        → IsText e
        → verify_rows lib key (db.rows s) zeros ≡ inr last
        → length last ≡ 32
        → db.anchor s ≡ some old
        → db.insert_row s (bound_row e last (compute_entry_hash lib key last (fields_of e)))
          ≡ some s1
        → db.set_anchor s1 (compute_entry_hash lib key last (fields_of e)) e.ts_unix_ms ≡ some s'
        → verify_audit_chain lib key db s' ≡ verified
    unfolding verify_audit_chain bound_row
    chain_extended s s1 s' e last old t rows n present inserts updates =
        let entry = compute_entry_hash lib key last (fields_of e) in
        let (i, r1, a1) = tables.inserted s s1 (bound_row e last entry) inserts in
        let (a2, r2) = tables.updated s1 s' old entry e.ts_unix_ms (a1 ∙ present) updates in
        let row : AuditRow = record { id = i; fields = bound_row e last entry } in
        let walked : verify_rows lib key (db.rows s') zeros ≡ inr entry =
          subst (λ l. verify_rows lib key l zeros ≡ inr entry) (sym (r2 ∙ r1))
            (verify_rows-append (db.rows s) row zeros last rows (bound_row-verify i e last t n)) in
        rw (verify_audit_chain, walked, a2) (anchor_follows last (fields_of e))

    -- Where an HMAC has 32 bytes and the statements obey the laws of the tables, a log that
    -- verifies still verifies after `append`, with the chain enabled, has added an event without
    -- NULs in its texts, if the last hash was not read by a step that fails: the new row is chained
    -- to the last one, and the anchor follows.
    pub append_chained-verify :
        (s s' : S) (e : AuditEvent)
        → IsText e
        → db.read_last s ≢ step_failed
        → verify_audit_chain lib key db s ≡ verified
        → append lib key db true s e ≡ some s'
        → verify_audit_chain lib key db s' ≡ verified
    unfolding append append_chained
    append_chained-verify s s' e t read h done =
        let (last, rows, anchored) = verified_inv lib key db s h in
        let (old, present) = anchor_inv (db.anchor s) last anchored in
        let newest : newest_hash zeros (db.rows s) ≡ some last =
          last-verify_rows (db.rows s) zeros last refl rows in
        let entry = compute_entry_hash lib key last (fields_of e) in
        elim (last_entry_hash-cases (db.read_last s) (db.rows s) last read newest) [
          | inl g ↦ absurd (none-some (rw (append, append_chained, g) at done))
          | inr known ↦ elim (Option-cases (db.insert_row s (bound_row e last entry))) [
            | inl f ↦ absurd (none-some (rw (append, append_chained, known, f) at done))
            | inr (s1, f) ↦
                chain_extended s s1 s' e last old t rows
                  (length-newest_hash (db.rows s) zeros last newest) present f
                  (rw (append, append_chained, known, f) at done)
          ]
        ]
