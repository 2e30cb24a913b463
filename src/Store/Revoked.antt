-- ===== src/Store/Revoked.antt =====
-- What the deletion of a reader means for the frames that it sends afterwards.
use mathlib.Core.Path.{subst}
use access_security_system_e.Common.{
  ℕ, ◌≡◌, refl, ap, sym, ◌∙◌, Bool, true, false, not, ◌&&◌, Option, none, some, List, [], ◌∷◌, inl,
  inr, arith, ◌==◌, Bool-cases, Option-cases, some-inj,
}
use access_security_system_e.Common.Rows.{
  any_row, find_row, remove_rows, any_row-remove_rows, any_row_none,
}
use access_security_system_e.Crypto.{Sodium}
use access_security_system_e.KeyManager.{KeyManager}
use access_security_system_e.Handler.{FrameHandlerConfig}
use access_security_system_e.Protocol.Frame.{Frame}
use access_security_system_e.Protocol.Parser.{ok, parse_frame}
use access_security_system_e.Protocol.Parser.Steps.{ok-inj}
use access_security_system_e.Payload.{JsonLib}
use access_security_system_e.Engine.{DecisionResult, EngineState}
use access_security_system_e.Engine.Decide.{handle_frame_bytes}
use access_security_system_e.Engine.Grants.{handle_frame_bytes_grant}
use access_security_system_e.Store.{
  ReaderRow, Tables, Statement, put_card, put_door_role, put_reader, put_reader_door, drop_reader,
  drop_reader_door, drop_door_role, drop_card, is_reader, insert_or_update, effect, AccessDb,
  HasEffect,
}
use access_security_system_e.Store.Operations.{run_command, delete_reader, as_store, key_version_of}

-- A sequence of operations, each of which is done.
unfoldable pub run_commands : {S : Type 0} → AccessDb S → List Statement → S → Option S
unfolding run_command
run_commands db [] s = some s
run_commands db (q ∷ qs) s = elim (run_command db q s) [
  | none ↦ none
  | some s' ↦ run_commands db qs s'
]

-- The operation does not register the reader.
unfoldable pub leaves_out : ℕ → Statement → Bool
leaves_out r (put_reader k v) = not (k == r)
leaves_out r q = true

unfoldable pub all_leave_out : ℕ → List Statement → Bool
all_leave_out r [] = true
all_leave_out r (q ∷ qs) = leaves_out r q && all_leave_out r qs

none-some {ℓ} : {A : Type ℓ} {a : A} → none ≡ some a → ⊥
none-some e = cc

true-false : true ≡ false → ⊥
true-false e = cc

abbrev Absent : ℕ → Tables → Type 0
Absent r t = any_row (is_reader r) t.readers ≡ false

any_row-removed :
    (r : ℕ) (xs : List ReaderRow) → any_row (is_reader r) (remove_rows (is_reader r) xs) ≡ false
any_row-removed r xs =
    any_row-remove_rows (is_reader r) (is_reader r) xs ∙ any_row_none _ xs (λ x. ground arith)

any_row-fewer :
    (r : ℕ) (p : ReaderRow → Bool) (xs : List ReaderRow)
    → any_row (is_reader r) xs ≡ false
    → any_row (is_reader r) (remove_rows p xs) ≡ false
unfolding any_row remove_rows
any_row-fewer r p [] h = refl
any_row-fewer r p (x ∷ xs) h = ground (arith, any_row-fewer r p xs)

any_row-insert_or_update :
    (r k v : ℕ) (xs : List ReaderRow)
    → not (k == r) ≡ true
    → any_row (is_reader r) xs ≡ false
    → any_row
        (is_reader r)
        (insert_or_update (is_reader k) (record { reader_id = k; current_key_version = v }) xs)
      ≡ false
unfolding insert_or_update any_row is_reader
any_row-insert_or_update r k v xs n h = ground (arith, any_row-fewer r (is_reader k) xs h)

find_row-missing :
    (r : ℕ) (xs : List ReaderRow)
    → any_row (is_reader r) xs ≡ false
    → find_row (is_reader r) xs ≡ none
unfolding any_row find_row
find_row-missing r [] h = refl
find_row-missing r (x ∷ xs) h = ground (arith, find_row-missing r xs)

readers-put_reader_door :
    (k d : ℕ) (t t' : Tables) → effect (put_reader_door k d) t ≡ some t' → t.readers ≡ t'.readers
unfolding effect
readers-put_reader_door k d t t' e = elim (Bool-cases (any_row (is_reader k) t.readers)) [
  | inl f ↦ ap (λ o. o.readers) (some-inj (rw (effect, f) at e))
  | inr f ↦ absurd (none-some (rw (effect, f) at e))
]

module _ {S : Type 0} (db : AccessDb S) (law : HasEffect db) where
  Absent-run_command :
      (r : ℕ) (q : Statement) (s s' : S)
      → leaves_out r q ≡ true
      → run_command db q s ≡ some s'
      → Absent r (db.tables s)
      → Absent r (db.tables s')
  unfolding run_command leaves_out effect
  Absent-run_command r (put_card h k) s s' n e a =
      subst (Absent r) (some-inj (law.executed s s' _ e)) a
  Absent-run_command r (put_door_role d k) s s' n e a =
      subst (Absent r) (some-inj (law.executed s s' _ e)) a
  Absent-run_command r (put_reader k v) s s' n e a =
      subst (Absent r) (some-inj (law.executed s s' _ e)) (any_row-insert_or_update r k v _ n a)
  Absent-run_command r (put_reader_door k d) s s' n e a =
      subst (λ o. any_row (is_reader r) o ≡ false)
        (readers-put_reader_door k d (db.tables s) (db.tables s') (law.executed s s' _ e)) a
  Absent-run_command r (drop_reader k) s s' n e a =
      subst (Absent r) (some-inj (law.executed s s' _ e)) (any_row-fewer r _ _ a)
  Absent-run_command r (drop_reader_door k d) s s' n e a =
      subst (Absent r) (some-inj (law.executed s s' _ e)) a
  Absent-run_command r (drop_door_role d k) s s' n e a =
      subst (Absent r) (some-inj (law.executed s s' _ e)) a
  Absent-run_command r (drop_card h) s s' n e a =
      subst (Absent r) (some-inj (law.executed s s' _ e)) a

  Absent-run_commands :
      (r : ℕ) (qs : List Statement) (s s' : S)
      → all_leave_out r qs ≡ true
      → run_commands db qs s ≡ some s'
      → Absent r (db.tables s)
      → Absent r (db.tables s')
  unfolding run_commands all_leave_out
  Absent-run_commands r [] s s' n e a = subst (λ o. Absent r (db.tables o)) (some-inj e) a
  Absent-run_commands r (q ∷ qs) s s' n e a = elim (Option-cases (run_command db q s)) [
    | inl f ↦ absurd (none-some (rw (run_commands, f) at e))
    | inr (s1, f) ↦
        Absent-run_commands r qs s1 s' (ground arith) (rw (run_commands, f) at e)
          (Absent-run_command r q s s1 (ground arith) f a)
  ]

  Absent-delete_reader :
      (r : ℕ) (s s' : S) → delete_reader db s r ≡ some s' → Absent r (db.tables s')
  unfolding delete_reader effect
  Absent-delete_reader r s s' e =
      subst (Absent r) (some-inj (law.executed s s' _ e)) (any_row-removed r _)

  key_version_of-Absent : (r : ℕ) (s : S) → Absent r (db.tables s) → key_version_of db s r ≡ 0
  unfolding key_version_of
  key_version_of-Absent r s a = elim (Bool-cases (db.readable s)) [
    | inl e ↦ rw (key_version_of, e, find_row-missing r _ a) refl
    | inr e ↦ rw (key_version_of, e) refl
  ]

  module _ {V : Type 0} (json : JsonLib V) (lib : Sodium) (m : KeyManager)
      (c : FrameHandlerConfig) where
    -- After a reader is deleted, and after any operations of the store that are done and do not
    -- register it again, the engine grants no frame that names it, whether the database can be
    -- read or not, when SQLite's statements have their effect.
    pub deleted_reader_refused :
        (reader_id : ℕ) (qs : List Statement) (s s1 s2 : S)
        → delete_reader db s reader_id ≡ some s1
        → all_leave_out reader_id qs ≡ true
        → run_commands db qs s1 ≡ some s2
        → (now : ℕ) (st : EngineState) (bytes : List ℕ) (f : Frame) (r : DecisionResult)
        → parse_frame bytes c.max_ct_len ≡ ok f
        → f.header.reader_id ≡ reader_id
        → (handle_frame_bytes json lib m c (some (as_store db s2)) now st bytes).result ≡ some r
        → r.allow ≡ false
    unfolding as_store
    deleted_reader_refused reader_id qs s s1 s2 gone out run now st bytes f r p names h =
        let unknown : key_version_of db s2 reader_id ≡ 0 = key_version_of-Absent reader_id s2 (
          Absent-run_commands reader_id qs s1 s2 out run
            (Absent-delete_reader reader_id s s1 gone)) in
        elim (Bool-cases r.allow) [
          | inr e ↦ e
          | inl e ↦
              let (t, g, plaintext, same, q, accepts, free, permits) =
                handle_frame_bytes_grant json lib m c (some (as_store db s2)) now st bytes r h e in
              let reader : g.header.reader_id ≡ reader_id =
                ap (λ (o : Frame). o.header.reader_id) (ok-inj (sym q ∙ p)) ∙ names in
              let version : key_version_of db s2 reader_id
                  ≡ t.current_key_version_for_reader g.header.reader_id =
                ap (λ o. o.current_key_version_for_reader reader_id) (some-inj same)
                ∙ ap t.current_key_version_for_reader (sym reader) in
              let known = accepts.reader_known in
              let zero_version : t.current_key_version_for_reader g.header.reader_id ≡ 0 =
                sym version ∙ unknown in
              absurd (true-false (ap (λ k. k == 0) (sym zero_version) ∙ known))
        ]
