-- ===== src/Store/Integrity.antt =====
-- The keys of the tables: no two rows with one primary key, and no door of an unknown reader.
use mathlib.Core.Path.{subst}
use access_security_system_e.Common.{
  ℕ, ◌≡◌, refl, ◌∙◌, Bool, true, false, not, ◌&&◌, none, some, List, [], ◌∷◌, inl, inr, arith, ◌==◌,
  bytes_eq, Bool-cases, some-inj,
}
use access_security_system_e.Common.Rows.{
  any_row, remove_rows, any_row-remove_rows, any_row_same, any_row_none,
}
use access_security_system_e.Store.{
  ReaderRow, ReaderDoorRow, Tables, Statement, put_card, put_door_role, put_reader, put_reader_door,
  drop_reader, drop_reader_door, drop_door_role, drop_card, is_card, is_door_role, is_reader,
  is_reader_door, is_door_of, insert_or_ignore, insert_or_update, effect, AccessDb, HasEffect,
}
use access_security_system_e.Store.Operations.{run_command}

-- No row has the key of a later one.
unfoldable pub unique {ℓ} : {A : Type ℓ} → (A → A → Bool) → List A → Bool
unique same [] = true
unique same (x ∷ xs) = not (any_row (same x) xs) && unique same xs

any_row_fewer {ℓ} :
    {A : Type ℓ} (p q : A → Bool) (xs : List A)
    → any_row p xs ≡ false
    → any_row p (remove_rows q xs) ≡ false
unfolding any_row remove_rows
any_row_fewer p q [] h = refl
any_row_fewer p q (x ∷ xs) h = ground (arith, any_row_fewer p q xs)

unique-remove_rows {ℓ} :
    {A : Type ℓ} (same : A → A → Bool) (q : A → Bool) (xs : List A)
    → unique same xs ≡ true
    → unique same (remove_rows q xs) ≡ true
unfolding unique remove_rows
unique-remove_rows same q [] h = refl
unique-remove_rows same q (x ∷ xs) h =
    ground (arith, unique-remove_rows same q xs, any_row_fewer (same x) q xs)

unique-insert_or_update {ℓ} :
    {A : Type ℓ} (same : A → A → Bool) (q : A → Bool) (row : A) (xs : List A)
    → ((x : A) → same row x ≡ q x)
    → unique same xs ≡ true
    → unique same (insert_or_update q row xs) ≡ true
unfolding insert_or_update unique
unique-insert_or_update same q row xs h u =
    let gone : any_row (same row) (remove_rows q xs) ≡ false =
      any_row-remove_rows (same row) q xs
      ∙ any_row_none (λ x. same row x && not (q x)) xs (λ x. ground (arith, h x)) in
    rw gone (unique-remove_rows same q xs u)

unique-insert_or_ignore {ℓ} :
    {A : Type ℓ} (same : A → A → Bool) (q : A → Bool) (row : A) (xs : List A)
    → ((x : A) → same row x ≡ q x)
    → unique same xs ≡ true
    → unique same (insert_or_ignore q row xs) ≡ true
unfolding insert_or_ignore unique
unique-insert_or_ignore same q row xs h u = elim (Bool-cases (any_row q xs)) [
  | inl e ↦ rw (insert_or_ignore, e) u
  | inr e ↦ rw (insert_or_ignore, e, unique, any_row_same (same row) q xs h, e) u
]

-- Every door's reader is there.
unfoldable pub known_readers : List ReaderRow → List ReaderDoorRow → Bool
known_readers readers [] = true
known_readers readers (x ∷ xs) = any_row (is_reader x.reader_id) readers && known_readers readers xs

pub record HasIntegrity (t : Tables) : Type 0 where
  pub card_keys : unique (λ x y. bytes_eq y.card_hmac x.card_hmac) t.cards ≡ true
  pub door_role_keys :
      unique (λ x y. (y.door_id == x.door_id) && bytes_eq y.role x.role) t.door_roles ≡ true
  pub reader_keys : unique (λ x y. y.reader_id == x.reader_id) t.readers ≡ true
  pub reader_door_keys :
      unique (λ x y. (y.reader_id == x.reader_id) && (y.door_id == x.door_id)) t.reader_doors ≡ true
  pub doors_known : known_readers t.readers t.reader_doors ≡ true

known_readers-remove_rows :
    (readers : List ReaderRow) (q : ReaderDoorRow → Bool) (xs : List ReaderDoorRow)
    → known_readers readers xs ≡ true
    → known_readers readers (remove_rows q xs) ≡ true
unfolding known_readers remove_rows
known_readers-remove_rows readers q [] h = refl
known_readers-remove_rows readers q (x ∷ xs) h =
    ground (arith, known_readers-remove_rows readers q xs)

-- An update of a reader keeps every reader.
any_row-update :
    (r v k : ℕ) (readers : List ReaderRow)
    → any_row (is_reader k) readers ≡ true
    → any_row
        (is_reader k)
        (insert_or_update (is_reader r) (record { reader_id = r; current_key_version = v }) readers)
      ≡ true
unfolding any_row is_reader insert_or_update remove_rows
any_row-update r v k [] h = ground arith
any_row-update r v k (x ∷ xs) h = ground (arith, any_row-update r v k xs)

known_readers-update :
    (r v : ℕ) (readers : List ReaderRow) (xs : List ReaderDoorRow)
    → known_readers readers xs ≡ true
    → known_readers
        (insert_or_update (is_reader r) (record { reader_id = r; current_key_version = v }) readers)
        xs
      ≡ true
unfolding known_readers
known_readers-update r v readers [] h = refl
known_readers-update r v readers (x ∷ xs) h =
    ground (arith, known_readers-update r v readers xs, any_row-update r v x.reader_id readers)

-- The removal of a reader keeps the others.
any_row-other :
    (r k : ℕ) (readers : List ReaderRow)
    → (k == r) ≡ false
    → any_row (is_reader k) readers ≡ true
    → any_row (is_reader k) (remove_rows (is_reader r) readers) ≡ true
unfolding any_row is_reader remove_rows
any_row-other r k [] n h = h
any_row-other r k (x ∷ xs) n h = ground (arith, any_row-other r k xs)

known_readers-cascade :
    (r : ℕ) (readers : List ReaderRow) (xs : List ReaderDoorRow)
    → known_readers readers xs ≡ true
    → known_readers (remove_rows (is_reader r) readers) (remove_rows (is_door_of r) xs) ≡ true
unfolding known_readers remove_rows is_door_of
known_readers-cascade r readers [] h = refl
known_readers-cascade r readers (x ∷ xs) h =
    ground (arith, known_readers-cascade r readers xs, any_row-other r x.reader_id readers)

known_readers-insert :
    (r d : ℕ) (readers : List ReaderRow) (xs : List ReaderDoorRow)
    → any_row (is_reader r) readers ≡ true
    → known_readers readers xs ≡ true
    → known_readers readers
        (insert_or_ignore (is_reader_door r d) (record { reader_id = r; door_id = d }) xs)
      ≡ true
unfolding known_readers insert_or_ignore
known_readers-insert r d readers xs k h = ground (arith, h, k)

none-some {ℓ} : {A : Type ℓ} {a : A} → none ≡ some a → ⊥
none-some e = cc

-- What a statement leaves has unique keys and known readers, if it has its effect on such tables.
effect-HasIntegrity :
    (q : Statement) (t t' : Tables) → HasIntegrity t → effect q t ≡ some t' → HasIntegrity t'
unfolding effect is_card is_door_role is_reader is_reader_door
effect-HasIntegrity (put_card h r) t t' i e = subst HasIntegrity (some-inj e) (record {
  card_keys = unique-insert_or_update _ _ _ t.cards (λ x. refl) i.card_keys;
  door_role_keys = i.door_role_keys;
  reader_keys = i.reader_keys;
  reader_door_keys = i.reader_door_keys;
  doors_known = i.doors_known;
})
effect-HasIntegrity (put_door_role d r) t t' i e = subst HasIntegrity (some-inj e) (record {
  card_keys = i.card_keys;
  door_role_keys = unique-insert_or_ignore _ _ _ t.door_roles (λ x. refl) i.door_role_keys;
  reader_keys = i.reader_keys;
  reader_door_keys = i.reader_door_keys;
  doors_known = i.doors_known;
})
effect-HasIntegrity (put_reader r v) t t' i e = subst HasIntegrity (some-inj e) (record {
  card_keys = i.card_keys;
  door_role_keys = i.door_role_keys;
  reader_keys = unique-insert_or_update _ _ _ t.readers (λ x. refl) i.reader_keys;
  reader_door_keys = i.reader_door_keys;
  doors_known = known_readers-update r v t.readers t.reader_doors i.doors_known;
})
effect-HasIntegrity (put_reader_door r d) t t' i e =
    elim (Bool-cases (any_row (is_reader r) t.readers)) [
      | inr k ↦ absurd (none-some (rw (effect, k) at e))
      | inl k ↦ subst HasIntegrity (some-inj (rw (effect, k) at e)) (record {
        card_keys = i.card_keys;
        door_role_keys = i.door_role_keys;
        reader_keys = i.reader_keys;
        reader_door_keys =
            unique-insert_or_ignore _ _ _ t.reader_doors (λ x. refl) i.reader_door_keys;
        doors_known = known_readers-insert r d t.readers t.reader_doors k i.doors_known;
      })
    ]
effect-HasIntegrity (drop_reader r) t t' i e = subst HasIntegrity (some-inj e) (record {
  card_keys = i.card_keys;
  door_role_keys = i.door_role_keys;
  reader_keys = unique-remove_rows _ _ t.readers i.reader_keys;
  reader_door_keys = unique-remove_rows _ _ t.reader_doors i.reader_door_keys;
  doors_known = known_readers-cascade r t.readers t.reader_doors i.doors_known;
})
effect-HasIntegrity (drop_reader_door r d) t t' i e = subst HasIntegrity (some-inj e) (record {
  card_keys = i.card_keys;
  door_role_keys = i.door_role_keys;
  reader_keys = i.reader_keys;
  reader_door_keys = unique-remove_rows _ _ t.reader_doors i.reader_door_keys;
  doors_known = known_readers-remove_rows t.readers _ t.reader_doors i.doors_known;
})
effect-HasIntegrity (drop_door_role d r) t t' i e = subst HasIntegrity (some-inj e) (record {
  card_keys = i.card_keys;
  door_role_keys = unique-remove_rows _ _ t.door_roles i.door_role_keys;
  reader_keys = i.reader_keys;
  reader_door_keys = i.reader_door_keys;
  doors_known = i.doors_known;
})
effect-HasIntegrity (drop_card h) t t' i e = subst HasIntegrity (some-inj e) (record {
  card_keys = unique-remove_rows _ _ t.cards i.card_keys;
  door_role_keys = i.door_role_keys;
  reader_keys = i.reader_keys;
  reader_door_keys = i.reader_door_keys;
  doors_known = i.doors_known;
})

module _ {S : Type 0} (db : AccessDb S) (law : HasEffect db) where
  run_command-effect :
      (q : Statement) (s s' : S)
      → run_command db q s ≡ some s'
      → (r : Statement) × (effect r (db.tables s) ≡ some (db.tables s'))
  unfolding run_command
  run_command-effect (put_card h r) s s' e = (_, law.executed s s' _ e)
  run_command-effect (put_door_role d r) s s' e = (_, law.executed s s' _ e)
  run_command-effect (put_reader r v) s s' e = (_, law.executed s s' _ e)
  run_command-effect (put_reader_door r d) s s' e = (_, law.executed s s' _ e)
  run_command-effect (drop_reader r) s s' e = (_, law.executed s s' _ e)
  run_command-effect (drop_reader_door r d) s s' e = (_, law.executed s s' _ e)
  run_command-effect (drop_door_role d r) s s' e = (_, law.executed s s' _ e)
  run_command-effect (drop_card h) s s' e = (_, law.executed s s' _ e)

  -- Every operation of the store that is done keeps the keys of the four tables unique and leaves
  -- no door bound to a reader that is not there, when SQLite's statements have their effect.
  pub run_command-HasIntegrity :
      (q : Statement) (s s' : S)
      → HasIntegrity (db.tables s)
      → run_command db q s ≡ some s'
      → HasIntegrity (db.tables s')
  run_command-HasIntegrity q s s' i e =
      let (r, done) = run_command-effect q s s' e in
      effect-HasIntegrity r (db.tables s) (db.tables s') i done
