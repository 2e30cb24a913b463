-- ===== src/Store/Operations.antt =====
-- access_storage/src/sqlite_access_store.cpp: the methods of SqliteAccessStore.
use access_security_system_e.Common.{
  ℕ, ◌+◌, ◌%◌, Bool, true, false, not, ◌&&◌, ◌||◌, Option, none, some, List, [], ◌∷◌, map, leb, ltb,
  take, drop, ◌==◌, if◌then◌else◌,
}
use access_security_system_e.Common.Text.{c_str}
use access_security_system_e.Common.Rows.{any_row, find_row, remove_rows}
use access_security_system_e.Protocol.Codec.{u32_mod}
use access_security_system_e.Handler.{AccessStore}
use access_security_system_e.Store.{
  ReaderRow, ReaderDoorRow, DoorRoleRow, CardRow, Statement, put_card, put_door_role, put_reader,
  put_reader_door, drop_reader, drop_reader_door, drop_door_role, drop_card, is_card, is_door_role,
  is_reader, is_reader_door, is_door_of, AccessDb,
}

-- static_cast<int>, then `v <= 0`
unfoldable pub positive_int : ℕ → ℕ
positive_int v = if leb 2147483648 v then 0 else v

-- ORDER BY, with the test whether a row may stand before another.
unfoldable pub insert_row {ℓ} : {A : Type ℓ} → (A → A → Bool) → A → List A → List A
insert_row before x [] = x ∷ []
insert_row before x (y ∷ ys) =
    let rest = insert_row before x ys in if before x y then x ∷ (y ∷ ys) else y ∷ rest

unfoldable pub order_by {ℓ} : {A : Type ℓ} → (A → A → Bool) → List A → List A
unfolding insert_row
order_by before [] = []
order_by before (x ∷ xs) = insert_row before x (order_by before xs)

-- The order of the columns: numbers as signed 32-bit integers, texts by their bytes.
unfoldable pub int_before : ℕ → ℕ → Bool
int_before a b = leb ((a + 2147483648) % u32_mod) ((b + 2147483648) % u32_mod)

unfoldable pub reader_door_before : ReaderDoorRow → ReaderDoorRow → Bool
unfolding int_before
reader_door_before x y =
    if x.reader_id == y.reader_id
    then int_before x.door_id y.door_id
    else int_before x.reader_id y.reader_id

unfoldable pub door_before : ReaderDoorRow → ReaderDoorRow → Bool
unfolding int_before
door_before x y = int_before x.door_id y.door_id

unfoldable pub text_before : List ℕ → List ℕ → Bool
text_before [] t = true
text_before (a ∷ s) [] = false
text_before (a ∷ s) (b ∷ t) = ltb a b || ((a == b) && text_before s t)

-- LIMIT and OFFSET, bound as signed 64-bit integers: a negative limit is none, a negative offset 0.
unfoldable pub page {ℓ} : {A : Type ℓ} → ℕ → ℕ → List A → List A
page limit offset rows =
    let rest = drop (if leb 9223372036854775808 offset then 0 else offset) rows in
    if leb 9223372036854775808 limit then rest else take limit rest

unfoldable pub read_door_role : DoorRoleRow → DoorRoleRow
unfolding c_str
read_door_role row = record row { role = c_str row.role }

unfoldable pub read_card : CardRow → CardRow
unfolding c_str
read_card row = record { card_hmac = c_str row.card_hmac; role = c_str row.role }

-- SqliteAccessStore. The methods that change it return `none` for their exception.
module _ {S : Type 0} (db : AccessDb S) where
  unfoldable pub upsert_card_hmac : S → List ℕ → List ℕ → Option S
  unfolding c_str
  upsert_card_hmac s card_hmac role = db.exec s (put_card (c_str card_hmac) (c_str role))

  unfoldable pub allow_role : S → ℕ → List ℕ → Option S
  unfolding c_str
  allow_role s door_id role = db.exec s (put_door_role door_id (c_str role))

  unfoldable pub role_for_card : S → List ℕ → Option (List ℕ)
  unfolding c_str find_row is_card
  role_for_card s card_hmac =
      if db.readable s
      then elim (find_row (is_card card_hmac) (db.tables s).cards) [
        | none ↦ none
        | some row ↦ some (c_str row.role)
      ]
      else none

  unfoldable pub is_role_allowed : S → ℕ → List ℕ → Bool
  unfolding any_row is_door_role
  is_role_allowed s door_id role =
      db.readable s && any_row (is_door_role door_id role) (db.tables s).door_roles

  unfoldable pub upsert_reader : S → ℕ → ℕ → Option S
  upsert_reader s reader_id v = db.exec s (put_reader reader_id v)

  unfoldable pub key_version_of : S → ℕ → ℕ
  unfolding find_row is_reader positive_int
  key_version_of s reader_id =
      if db.readable s
      then elim (find_row (is_reader reader_id) (db.tables s).readers) [
        | none ↦ 0
        | some row ↦ positive_int row.current_key_version
      ]
      else 0

  unfoldable pub allow_door_for_reader : S → ℕ → ℕ → Option S
  allow_door_for_reader s reader_id door_id = db.exec s (put_reader_door reader_id door_id)

  unfoldable pub is_door_allowed : S → ℕ → ℕ → Bool
  unfolding any_row is_reader_door
  is_door_allowed s reader_id door_id =
      db.readable s && any_row (is_reader_door reader_id door_id) (db.tables s).reader_doors

  unfoldable pub list_readers : S → List ReaderRow
  unfolding order_by int_before
  list_readers s =
      if db.readable s
      then order_by (λ x y. int_before x.reader_id y.reader_id) (db.tables s).readers
      else []

  -- The reader 0 stands for all of them.
  unfoldable pub list_reader_doors : S → ℕ → List ReaderDoorRow
  unfolding order_by reader_door_before door_before remove_rows is_door_of
  list_reader_doors s reader_id =
      let rows = (db.tables s).reader_doors in
      if not (db.readable s)
      then []
      else if reader_id == 0
      then order_by reader_door_before rows
      else order_by door_before (remove_rows (λ row. not (is_door_of reader_id row)) rows)

  -- The door 0 stands for all of them.
  unfoldable pub list_door_roles : S → ℕ → List DoorRoleRow
  unfolding order_by int_before text_before remove_rows read_door_role
  list_door_roles s door_id =
      let rows = (db.tables s).door_roles in
      if not (db.readable s)
      then []
      else if door_id == 0
      then map read_door_role (
          order_by
            (λ x y.
              if x.door_id == y.door_id
              then text_before x.role y.role
              else int_before x.door_id y.door_id)
            rows)
      else map read_door_role (
          order_by (λ x y. text_before x.role y.role)
            (remove_rows (λ row. not (row.door_id == door_id)) rows))

  unfoldable pub list_cards : S → ℕ → ℕ → List CardRow
  unfolding order_by text_before page read_card
  list_cards s limit offset =
      if db.readable s
      then map read_card (
          page limit offset
            (order_by (λ x y. text_before x.card_hmac y.card_hmac) (db.tables s).cards))
      else []

  unfoldable pub delete_reader : S → ℕ → Option S
  delete_reader s reader_id = db.exec s (drop_reader reader_id)

  unfoldable pub revoke_door_for_reader : S → ℕ → ℕ → Option S
  revoke_door_for_reader s reader_id door_id = db.exec s (drop_reader_door reader_id door_id)

  unfoldable pub revoke_role : S → ℕ → List ℕ → Option S
  revoke_role s door_id role = db.exec s (drop_door_role door_id role)

  unfoldable pub delete_card_hmac : S → List ℕ → Option S
  delete_card_hmac s card_hmac = db.exec s (drop_card card_hmac)

  -- The store, as the frame handler and the engine read it.
  unfoldable pub as_store : S → AccessStore
  unfolding role_for_card is_role_allowed key_version_of is_door_allowed
  as_store s = record {
    role_for_card_hmac = role_for_card s;
    is_allowed = is_role_allowed s;
    current_key_version_for_reader = key_version_of s;
    is_reader_allowed_door = is_door_allowed s;
  }

  -- The operations that change the store.
  unfoldable pub run_command : Statement → S → Option S
  unfolding upsert_card_hmac allow_role upsert_reader allow_door_for_reader delete_reader
      revoke_door_for_reader revoke_role delete_card_hmac
  run_command (put_card card_hmac role) s = upsert_card_hmac s card_hmac role
  run_command (put_door_role door_id role) s = allow_role s door_id role
  run_command (put_reader reader_id v) s = upsert_reader s reader_id v
  run_command (put_reader_door reader_id door_id) s = allow_door_for_reader s reader_id door_id
  run_command (drop_reader reader_id) s = delete_reader s reader_id
  run_command (drop_reader_door reader_id door_id) s = revoke_door_for_reader s reader_id door_id
  run_command (drop_door_role door_id role) s = revoke_role s door_id role
  run_command (drop_card card_hmac) s = delete_card_hmac s card_hmac
