-- ===== src/Audit/Page.antt =====
-- access_admin/src/service/audit_service.cpp: the page of the audit log that `listAuditLog` shows,
-- and where an appended event comes in it.
use access_security_system_e.Common.{
  ℕ, ◌≡◌, refl, ap, ◌∙◌, Bool, true, false, none, some, List, [], ◌∷◌, ◌++◌, ◌<◌, arith, inl, inr,
  map, suc, ltb, ◌+◌, ◌-◌, if◌then◌else◌, Option-cases,
}
use access_security_system_e.Common.Text.{codes, c_str}
use access_security_system_e.Crypto.{Sodium}
use access_security_system_e.Engine.{AuditEvent}
use access_security_system_e.Store.Operations.{page}
use access_security_system_e.Audit.{
  AuditRow, AuditDb, HasTables, zeros, bound_row, fields_of, last_entry_hash, compute_entry_hash,
  append, append_chained,
}

-- A signed integer.
pub data ℤ : Type 0 where
  pos : ℕ → ℤ
  negsuc : ℕ → ℤ

-- The number that a column of `2 * half` values shows, as int or int64_t.
unfoldable as_signed : ℕ → ℕ → ℤ
as_signed half v = if ltb v half then pos v else negsuc (half + half - 1 - v)

-- The members of a row's JSON object.
pub record AuditEntry : Type 0 where
  pub id : ℕ
  pub ts_unix_ms : ℤ
  pub reader_id : ℤ
  pub door_id : ℤ
  pub seq : ℤ
  pub allow : Bool
  pub reason : List ℕ
  pub card_hmac : List ℕ
  pub action : List ℕ

-- parseAuditRow; a text that is NULL is shown as the empty text.
unfoldable parse_audit_row : AuditRow → AuditEntry
unfolding as_signed c_str
parse_audit_row row =
    let x = row.fields in
    record {
      id = row.id;
      ts_unix_ms = as_signed 9223372036854775808 x.ts;
      reader_id = as_signed 2147483648 x.reader_id;
      door_id = as_signed 2147483648 x.door_id;
      seq = as_signed 9223372036854775808 x.seq;
      allow = x.allow;
      reason = c_str x.reason;
      card_hmac = c_str x.card_hmac;
      action = c_str x.action;
    }

-- ORDER BY id DESC
unfoldable newest_first : List AuditRow → List AuditRow
newest_first [] = []
newest_first (row ∷ rows) = newest_first rows ++ row ∷ []

-- The rows of the page; a limit and an offset are the 64-bit numbers that SQLite binds for the ints.
unfoldable pub audit_page : ℕ → ℕ → List AuditRow → List AuditEntry
unfolding newest_first page parse_audit_row
audit_page limit offset rows = map parse_audit_row (page limit offset (newest_first rows))

-- What the page shows of an event that has the row `id`.
abbrev pub shown : ℕ → AuditEvent → AuditEntry
unfolding as_signed c_str
shown id e = record {
  id = id;
  ts_unix_ms = as_signed 9223372036854775808 e.ts_unix_ms;
  reader_id = as_signed 2147483648 e.reader_id;
  door_id = as_signed 2147483648 e.door_id;
  seq = as_signed 9223372036854775808 e.seq;
  allow = e.allow;
  reason = c_str (codes e.reason);
  card_hmac = c_str e.card_id;
  action = c_str e.action;
}

newest_first-append :
    (rows : List AuditRow) (row : AuditRow)
    → newest_first (rows ++ row ∷ []) ≡ row ∷ newest_first rows
unfolding newest_first
newest_first-append [] row = refl
newest_first-append (x ∷ rows) row = ap (λ l. l ++ x ∷ []) (newest_first-append rows row)

c_str-c_str : (s : List ℕ) → c_str (c_str s) ≡ c_str s
unfolding c_str
c_str-c_str [] = refl
c_str-c_str (b ∷ s) = ground (arith, c_str-c_str s)

parse_audit_row-bound :
    (id : ℕ) (e : AuditEvent) (prev entry : List ℕ)
    → parse_audit_row (record { id = id; fields = bound_row e prev entry }) ≡ shown id e
unfolding parse_audit_row bound_row fields_of
parse_audit_row-bound id e prev entry =
    rw (c_str-c_str (codes e.reason), c_str-c_str e.card_id, c_str-c_str e.action) refl

page_first :
    (n : ℕ) (row : AuditRow) (rows : List AuditRow)
    → n < 9223372036854775807
    → page (suc n) 0 (row ∷ rows) ≡ row ∷ page n 0 rows
unfolding page
page_first n row rows h = ground arith

none-some : {S : Type 0} {s : S} → none ≡ some s → ⊥
none-some e = cc

module _ (lib : Sodium) (key : List ℕ) {S : Type 0} (db : AuditDb S) (tables : HasTables db) where
  Adds : AuditEvent → S → S → Type 0
  Adds e s s' =
      (id : ℕ) × (prev : List ℕ) × (entry : List ℕ) × (db.rows s'
        ≡ db.rows s ++ (record { id = id; fields = bound_row e prev entry }) ∷ [])

  chained-Adds :
      (s s' : S) (e : AuditEvent) (old : List ℕ)
      → db.anchor s ≡ some old
      → append_chained lib key db s e ≡ some s'
      → Adds e s s'
  unfolding append_chained Adds
  chained-Adds s s' e old present done =
      elim (Option-cases (last_entry_hash (db.read_last s) (db.rows s))) [
        | inl f ↦ absurd (none-some (rw (append_chained, f) at done))
        | inr (prev, f) ↦
            (let entry = compute_entry_hash lib key prev (fields_of e) in
              elim (Option-cases (db.insert_row s (bound_row e prev entry))) [
                | inl g ↦ absurd (none-some (rw (append_chained, f, g) at done))
                | inr (s1, g) ↦
                    (let (id, r1, a1) = tables.inserted s s1 (bound_row e prev entry) g in
                      let (a2, r2) =
                        tables.updated s1 s' old entry e.ts_unix_ms (a1 ∙ present)
                          (rw (append_chained, f, g) at done) in
                      (id, prev, entry, r2 ∙ r1))
              ])
      ]

  append-Adds :
      (chain_enabled : Bool) (s s' : S) (e : AuditEvent) (old : List ℕ)
      → db.anchor s ≡ some old
      → append lib key db chain_enabled s e ≡ some s'
      → Adds e s s'
  unfolding append Adds
  append-Adds true s s' e old present done = chained-Adds s s' e old present done
  append-Adds false s s' e old present done =
      let (id, r, a) = tables.inserted s s' (bound_row e zeros zeros) done in (id, zeros, zeros, r)

  -- Where the statements obey the laws of the tables and the anchor is there: when `append` has
  -- succeeded, with or without the chain, the first page of the log shows the event first, and
  -- after it what the first page with a limit of one less showed before. The limit is less than
  -- 2 ^ 63 - 1.
  pub audit_page-append :
      (chain_enabled : Bool) (s s' : S) (e : AuditEvent) (old : List ℕ) (n : ℕ)
      → n < 9223372036854775807
      → db.anchor s ≡ some old
      → append lib key db chain_enabled s e ≡ some s'
      → (id : ℕ) × (audit_page (suc n) 0 (db.rows s') ≡ shown id e ∷ audit_page n 0 (db.rows s))
  unfolding audit_page Adds
  audit_page-append chain_enabled s s' e old n small present done =
      let (id, prev, entry, r) = append-Adds chain_enabled s s' e old present done in
      let row : AuditRow = record { id = id; fields = bound_row e prev entry } in
      let listed : newest_first (db.rows s') ≡ row ∷ newest_first (db.rows s) =
        ap newest_first r ∙ newest_first-append (db.rows s) row in
      (
        id,
        ap (λ l. map parse_audit_row (page (suc n) 0 l)) listed
            ∙ ap (map parse_audit_row) (page_first n row (newest_first (db.rows s)) small)
            ∙ ap (λ x. x ∷ audit_page n 0 (db.rows s)) (parse_audit_row-bound id e prev entry),
      )
