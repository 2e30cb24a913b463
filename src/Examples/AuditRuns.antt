-- ===== src/Examples/AuditRuns.antt =====
-- The audit log over two tables in memory.
use access_security_system_e.Common.{
  ℕ, ◌≡◌, ◌≢◌, refl, Option, none, some, List, [], ◌∷◌, ◌++◌, length, true, replicate, arith, ap,
  sym, ◌∙◌, some-inj, bytes_eq, ◌⊎◌,
}
use access_security_system_e.Common.Text.{codes, c_str}
use access_security_system_e.Protocol.Codec.{put_le32, put_le64}
use access_security_system_e.Engine.{AuditEvent}
use access_security_system_e.Audit.{
  event_bytes, put_bytes_with_len, append, append_chained, last_entry_hash, newest_hash, step_done,
  step_failed, AuditRow, AuditDb, HasTables, zeros, verified, verify_audit_chain, verify_rows,
  verify_anchor, bound_row, fields_of, compute_entry_hash,
}
use access_security_system_e.Audit.Chain.{IsText}
use access_security_system_e.Audit.Opened.{
  AuditSchema, HasSchema, HasText, or_new, init_schema, anchor_added, reopened, logged, run_log,
  run_log-opened,
}
use access_security_system_e.Audit.Encoding.{IsRow}
use access_security_system_e.Audit.Page.{audit_page, shown, audit_page-append}
use access_security_system_e.Audit.Unchained.{unchained_refused}
use access_security_system_e.Audit.Tamper.{IsSameLog, Collision, verified-IsSameLog}
use access_security_system_e.Examples.World.{toy, toy_hmac}

record Tables : Type 0 where
  audit_log : List AuditRow
  audit_anchor : Option (List ℕ)

abbrev update_anchor : Tables → Option (List ℕ) → List ℕ → Tables
update_anchor s none new = s
update_anchor s (some old) new = record s { audit_anchor = some new }

abbrev tables : AuditDb Tables
tables = record {
  read_last = λ s. step_done;
  rows = λ s. s.audit_log;
  insert_row = λ s x. some (record s {
    audit_log = s.audit_log ++ (record { id = length s.audit_log; fields = x }) ∷ [];
  });
  anchor = λ s. s.audit_anchor;
  set_anchor = λ s new ts. some (update_anchor s s.audit_anchor new);
}

update_anchor_lem :
    (s : Tables) (o : Option (List ℕ)) (old new : List ℕ)
    → o ≡ some old
    → ((update_anchor s o new).audit_anchor ≡ some new)
      × ((update_anchor s o new).audit_log ≡ s.audit_log)
update_anchor_lem s none old new e = absurd (cc)
update_anchor_lem s (some a) old new e = (refl, refl)

tables-HasTables : HasTables tables
tables-HasTables = record {
  inserted = λ s s' x e. (
    length s.audit_log,
    ap (λ t. t.audit_log) (sym (some-inj e)),
    ap (λ t. t.audit_anchor) (sym (some-inj e)),
  );
  updated = λ s s' old new ts p e.
      let (a, r) = update_anchor_lem s s.audit_anchor old new p in
      (
        ap (λ t. t.audit_anchor) (sym (some-inj e)) ∙ a,
        ap (λ t. t.audit_log) (sym (some-inj e)) ∙ r,
      );
}

abbrev empty : Tables
empty = record { audit_log = []; audit_anchor = some zeros }

abbrev opened : AuditEvent
opened = record {
  ts_unix_ms = 1000;
  reader_id = 1;
  door_id = 2;
  seq = 5;
  allow = true;
  reason = "ok";
  card_id = 65 ∷ [];
  action = codes "open";
}

abbrev key : List ℕ
key = replicate 32 9

abbrev entry : List ℕ
entry = compute_entry_hash toy key zeros (fields_of opened)

abbrev one_row : Tables
one_row = record {
  audit_log = (record { id = 0; fields = bound_row opened zeros entry }) ∷ [];
  audit_anchor = some entry;
}

bound_row-IsRow : IsRow (bound_row opened zeros entry)
unfolding bound_row
bound_row-IsRow = record {
  ts_fits = omega arith;
  reader_fits = omega arith;
  door_fits = omega arith;
  seq_fits = omega arith;
  reason_fits = omega arith;
  card_fits = omega arith;
  action_fits = omega arith;
}

one_row_verifies : verify_audit_chain toy key tables one_row ≡ verified
unfolding verify_audit_chain verify_rows verify_anchor bytes_eq bound_row put_le32 put_le64
one_row_verifies = refl

abbrev insert_new : Option (List ℕ) → List ℕ → Option (List ℕ)
insert_new none new = some new
insert_new (some old) new = some old

abbrev schema : AuditSchema Tables
schema = record {
  create = λ s. (s, true);
  insert_anchor = λ s new ts. some (record s { audit_anchor = insert_new s.audit_anchor new });
}

insert_new_lem : (old : Option (List ℕ)) (new : List ℕ) → insert_new old new ≡ or_new old new
unfolding or_new
insert_new_lem none new = refl
insert_new_lem (some old) new = refl

schema-HasSchema : HasSchema tables schema
schema-HasSchema = record {
  created = λ s. (refl, refl);
  anchored = λ s s' new ts e. (
    ap (λ t. t.audit_log) (sym (some-inj e)),
    ap (λ t. t.audit_anchor) (sym (some-inj e)) ∙ insert_new_lem s.audit_anchor new,
  );
}

abbrev new_file : Tables
new_file = record { audit_log = []; audit_anchor = none }

opened-IsText : IsText opened
opened-IsText = record {
  reason_text = ((λ e. omega arith), ((λ e. omega arith), tt));
  card_text = ((λ e. omega arith), tt);
  action_text =
      ((λ e. omega arith), ((λ e. omega arith), ((λ e. omega arith), ((λ e. omega arith), tt))));
}

run_log-opened_example :
    verify_audit_chain toy key tables
      (run_log toy key tables schema empty (logged opened ∷ reopened ∷ logged opened ∷ []))
    ≡ verified
unfolding init_schema anchor_added HasText
run_log-opened_example =
    run_log-opened toy key tables schema toy_hmac tables-HasTables schema-HasSchema (λ s e. cc)
      new_file empty (logged opened ∷ reopened ∷ logged opened ∷ []) refl refl refl
      (opened-IsText, (tt, (opened-IsText, tt)))

verified-IsSameLog_example :
    IsSameLog toy key one_row.audit_log one_row.audit_log ⊎ Collision toy key
verified-IsSameLog_example =
    verified-IsSameLog toy key tables one_row one_row entry (bound_row-IsRow, tt)
      (bound_row-IsRow, tt) one_row_verifies one_row_verifies refl refl

audit_page-append_example :
    (id : ℕ) × (audit_page 3 0 one_row.audit_log ≡ shown id opened ∷ audit_page 2 0 empty.audit_log)
unfolding append append_chained last_entry_hash newest_hash
audit_page-append_example =
    audit_page-append toy key tables tables-HasTables true empty one_row opened zeros 2
      (omega arith) refl refl

abbrev plain_row : Tables
plain_row = record {
  audit_log = (record { id = 0; fields = bound_row opened zeros zeros }) ∷ [];
  audit_anchor = some zeros;
}

unchained_refused_example : verify_audit_chain toy key tables plain_row ≢ verified
unfolding append compute_entry_hash bound_row event_bytes put_le32 put_le64 c_str put_bytes_with_len
unchained_refused_example =
    unchained_refused toy key tables tables-HasTables empty plain_row opened refl (λ e. cc)

-- A database whose step fails in every read of the last hash.
abbrev busy : AuditDb Tables
busy = record tables { read_last = λ s. step_failed }

abbrev two_rows : Tables
two_rows = record {
  audit_log =
      (record { id = 0; fields = bound_row opened zeros entry })
      ∷ (record { id = 1; fields = bound_row opened zeros entry })
      ∷ [];
  audit_anchor = some entry;
}
