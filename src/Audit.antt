-- ===== src/Audit.antt =====
-- access_storage: sqlite_audit_log.cpp, audit_verify.cpp and serialization.cpp. SQLite is a
-- parameter: `AuditDb` has the statements that the code runs on the tables audit_log and
-- audit_anchor. A failed statement is `none`; `append` is one transaction, so its exception leaves
-- the database as it was. The casts of the bound numbers to signed columns and back lose nothing.
pub mod Chain
pub mod Verified
pub mod Encoding
pub mod Tamper
pub mod Opened
pub mod Page
pub mod Unchained
pub mod Misread
use access_security_system_e.Common.{
  ℕ, ◌%◌, ◌≡◌, Bool, true, false, ◌&&◌, not, Option, none, some, List, [], ◌∷◌, ◌++◌, String, ◌⊎◌,
  inl, inr, length, replicate, ◌==◌, if◌then◌else◌, bytes_eq,
}
use access_security_system_e.Common.Text.{codes, c_str}
use access_security_system_e.Protocol.Codec.{u32_mod, put_le32, put_le64}
use access_security_system_e.Crypto.{Sodium}
use access_security_system_e.Engine.{AuditEvent}

-- The columns of a row but its id; a text that is NULL reads as the empty text.
pub record RowFields : Type 0 where
  pub ts : ℕ
  pub reader_id : ℕ
  pub door_id : ℕ
  pub seq : ℕ
  pub allow : Bool
  pub reason : List ℕ
  pub card_hmac : List ℕ
  pub action : List ℕ
  pub stored_prev : List ℕ
  pub stored_entry : List ℕ

pub record AuditRow : Type 0 where
  pub id : ℕ
  pub fields : RowFields

-- How the SELECT of the last entry's hash goes: it cannot be prepared, its step gives neither a row
-- nor the end (SQLITE_BUSY, an I/O error), or it reads the table.
pub data Read : Type 0 where
  not_prepared : Read
  step_failed : Read
  step_done : Read

pub record AuditDb (S : Type 0) : Type 0 where
  -- SELECT entry_hash FROM audit_log ORDER BY id DESC LIMIT 1
  pub read_last : S → Read
  -- SELECT ... FROM audit_log ORDER BY id ASC
  pub rows : S → List AuditRow
  -- INSERT INTO audit_log
  pub insert_row : S → RowFields → Option S
  -- SELECT last_hash FROM audit_anchor WHERE id = 1
  pub anchor : S → Option (List ℕ)
  -- UPDATE audit_anchor SET last_hash, updated_ts WHERE id = 1
  pub set_anchor : S → List ℕ → ℕ → Option S

-- An inserted row comes last, because its id is the highest; an update changes the anchor that is
-- there, and neither statement touches the other table.
pub record HasTables {S : Type 0} (db : AuditDb S) : Type 0 where
  pub inserted :
      (s s' : S) (x : RowFields)
      → db.insert_row s x ≡ some s'
      → (i : ℕ) × (db.rows s' ≡ db.rows s ++ (record { id = i; fields = x }) ∷ [])
        × (db.anchor s' ≡ db.anchor s)
  pub updated :
      (s s' : S) (old new : List ℕ) (ts : ℕ)
      → db.anchor s ≡ some old
      → db.set_anchor s new ts ≡ some s'
      → (db.anchor s' ≡ some new) × (db.rows s' ≡ db.rows s)

-- putBytesWithLen
unfoldable pub put_bytes_with_len : List ℕ → List ℕ → List ℕ
put_bytes_with_len s out = put_le32 (length s % u32_mod) out ++ s

-- The canonical bytes of an event.
unfoldable pub event_bytes : RowFields → List ℕ
unfolding put_bytes_with_len
event_bytes x =
    let out = put_le64 x.ts [] in
    let out1 = put_le32 x.reader_id out in
    let out2 = put_le32 x.door_id out1 in
    let out3 = put_le64 x.seq out2 in
    let out4 = out3 ++ (if x.allow then 1 else 0) ∷ [] in
    put_bytes_with_len x.action (put_bytes_with_len x.card_hmac (put_bytes_with_len x.reason out4))

abbrev pub zeros : List ℕ
zeros = replicate 32 0

unfoldable pub fields_of : AuditEvent → RowFields
fields_of e = record {
  ts = e.ts_unix_ms;
  reader_id = e.reader_id;
  door_id = e.door_id;
  seq = e.seq;
  allow = e.allow;
  reason = codes e.reason;
  card_hmac = e.card_id;
  action = e.action;
  stored_prev = zeros;
  stored_entry = zeros;
}

-- The row that insertAuditEntry binds.
unfoldable pub bound_row : AuditEvent → List ℕ → List ℕ → RowFields
unfolding c_str fields_of
bound_row e prev entry = record (fields_of e) {
  reason = c_str (codes e.reason);
  card_hmac = c_str e.card_id;
  action = c_str e.action;
  stored_prev = prev;
  stored_entry = entry;
}

-- The hash of the last row, and `last` without rows; `none` is a blob of another length.
unfoldable pub newest_hash : List ℕ → List AuditRow → Option (List ℕ)
newest_hash last [] = if length last == 32 then some last else none
newest_hash last (row ∷ rows) = newest_hash row.fields.stored_entry rows

-- getLastEntryHash; `none` is its exception. A step that fails counts as an empty log.
unfoldable pub last_entry_hash : Read → List AuditRow → Option (List ℕ)
unfolding newest_hash
last_entry_hash not_prepared rows = none
last_entry_hash step_failed rows = some zeros
last_entry_hash step_done rows = newest_hash zeros rows

pub data VerifyResult : Type 0 where
  verified : VerifyResult
  bad_row : ℕ → String → VerifyResult
  bad_anchor : String → VerifyResult

module _ (lib : Sodium) (key : List ℕ) where
  -- computeEntryHash, of both files
  unfoldable pub compute_entry_hash : List ℕ → RowFields → List ℕ
  unfolding event_bytes
  compute_entry_hash prev x = lib.hmac_sha256 key (prev ++ event_bytes x)

  -- extractRow's check of the blobs, then verifyRow; `none` is success.
  unfoldable pub verify_row : AuditRow → List ℕ → Option VerifyResult
  unfolding compute_entry_hash
  verify_row row expected_prev =
      let x = row.fields in
      if not ((length x.stored_prev == 32) && (length x.stored_entry == 32))
      then some (bad_row row.id "bad hash blob length")
      else if not (bytes_eq x.stored_prev expected_prev)
      then some (bad_row row.id "prev_hash mismatch")
      else if not (bytes_eq x.stored_entry (compute_entry_hash expected_prev x))
      then some (bad_row row.id "entry_hash mismatch")
      else none

  -- The loop of verifyAuditChain; it ends with the last entry's hash.
  unfoldable pub verify_rows : List AuditRow → List ℕ → VerifyResult ⊎ List ℕ
  unfolding verify_row
  verify_rows [] last = inr last
  verify_rows (row ∷ rows) last =
      let rest = verify_rows rows row.fields.stored_entry in
      elim (verify_row row last) [ none ↦ rest | some e ↦ inl e ]

  unfoldable pub verify_anchor : Option (List ℕ) → List ℕ → VerifyResult
  verify_anchor none last = bad_anchor "anchor row missing"
  verify_anchor (some a) last =
      if not (length a == 32)
      then bad_anchor "anchor last_hash bad blob"
      else if bytes_eq a last
      then verified
      else bad_anchor "anchor mismatch (possible truncation)"

  module _ {S : Type 0} (db : AuditDb S) where
    unfoldable pub verify_audit_chain : S → VerifyResult
    unfolding verify_rows verify_anchor
    verify_audit_chain s = elim (verify_rows (db.rows s) zeros) [
      | inl e ↦ e
      | inr last ↦ verify_anchor (db.anchor s) last
    ]

    -- append with the chain enabled.
    unfoldable pub append_chained : S → AuditEvent → Option S
    unfolding last_entry_hash bound_row compute_entry_hash fields_of
    append_chained s e = elim (last_entry_hash (db.read_last s) (db.rows s)) [
      | none ↦ none
      | some prev ↦
          (let entry = compute_entry_hash prev (fields_of e) in
            elim (db.insert_row s (bound_row e prev entry)) [
              | none ↦ none
              | some s' ↦ db.set_anchor s' entry e.ts_unix_ms
            ])
    ]

    unfoldable pub append : Bool → S → AuditEvent → Option S
    unfolding append_chained bound_row
    append chain_enabled s e =
        if chain_enabled then append_chained s e else db.insert_row s (bound_row e zeros zeros)
