-- ===== src/Store.antt =====
-- access_storage: sqlite_access_store.hpp and sqlite_access_store.cpp. SQLite is a parameter:
-- `AccessDb` runs the statements of the code on a database whose tables can be looked at. `effect`
-- is what the text of a statement says it does to the tables, keys and foreign keys included. Texts are bytes; a column holds the
-- 32 bits of a number, and the cast to `int` shows where a column is compared or ordered.
pub mod Operations
pub mod Integrity
pub mod Lookups
pub mod Refinement
pub mod Listing
pub mod Revoked
use access_security_system_e.Common.{
  ℕ, ◌+◌, ◌%◌, ◌≡◌, Bool, true, false, not, ◌&&◌, ◌||◌, Option, none, some, List, [], ◌∷◌, map, leb,
  ltb, take, drop, ◌==◌, if◌then◌else◌, bytes_eq,
}
use access_security_system_e.Common.Text.{c_str}
use access_security_system_e.Common.Rows.{any_row, find_row, remove_rows}
use access_security_system_e.Protocol.Codec.{u32_mod}
use access_security_system_e.Handler.{AccessStore}

pub record ReaderRow : Type 0 where
  pub reader_id : ℕ
  pub current_key_version : ℕ

pub record ReaderDoorRow : Type 0 where
  pub reader_id : ℕ
  pub door_id : ℕ

pub record DoorRoleRow : Type 0 where
  pub door_id : ℕ
  pub role : List ℕ

pub record CardRow : Type 0 where
  pub card_hmac : List ℕ
  pub role : List ℕ

-- The tables of initSchema.
pub record Tables : Type 0 where
  pub cards : List CardRow
  pub door_roles : List DoorRoleRow
  pub readers : List ReaderRow
  pub reader_doors : List ReaderDoorRow

-- The statements that change the tables, with what is bound to them.
pub data Statement : Type 0 where
  put_card : List ℕ → List ℕ → Statement
  put_door_role : ℕ → List ℕ → Statement
  put_reader : ℕ → ℕ → Statement
  put_reader_door : ℕ → ℕ → Statement
  drop_reader : ℕ → Statement
  drop_reader_door : ℕ → ℕ → Statement
  drop_door_role : ℕ → List ℕ → Statement
  drop_card : List ℕ → Statement

-- The tests of the WHERE clauses and of the primary keys.
unfoldable pub is_card : List ℕ → CardRow → Bool
is_card card_hmac row = bytes_eq row.card_hmac card_hmac

unfoldable pub is_door_role : ℕ → List ℕ → DoorRoleRow → Bool
is_door_role door_id role row = (row.door_id == door_id) && bytes_eq row.role role

unfoldable pub is_reader : ℕ → ReaderRow → Bool
is_reader reader_id row = row.reader_id == reader_id

unfoldable pub is_reader_door : ℕ → ℕ → ReaderDoorRow → Bool
is_reader_door reader_id door_id row = (row.reader_id == reader_id) && (row.door_id == door_id)

unfoldable pub is_door_of : ℕ → ReaderDoorRow → Bool
is_door_of reader_id row = row.reader_id == reader_id

-- INSERT OR IGNORE: a row whose key is there already is left as it is.
unfoldable pub insert_or_ignore {ℓ} : {A : Type ℓ} → (A → Bool) → A → List A → List A
unfolding any_row
insert_or_ignore same row rows = if any_row same rows then rows else row ∷ rows

-- INSERT ... ON CONFLICT DO UPDATE
unfoldable pub insert_or_update {ℓ} : {A : Type ℓ} → (A → Bool) → A → List A → List A
unfolding remove_rows
insert_or_update same row rows = row ∷ remove_rows same rows

-- INSERT INTO cards
abbrev pub store_card : List ℕ → List ℕ → Tables → Tables
store_card card_hmac role t = record t {
  cards =
      insert_or_update (is_card card_hmac) (record { card_hmac = card_hmac; role = role }) t.cards;
}

-- INSERT OR IGNORE INTO door_roles
abbrev pub store_door_role : ℕ → List ℕ → Tables → Tables
store_door_role door_id role t = record t {
  door_roles =
      insert_or_ignore (is_door_role door_id role) (record { door_id = door_id; role = role })
        t.door_roles;
}

-- INSERT INTO readers
abbrev pub store_reader : ℕ → ℕ → Tables → Tables
store_reader reader_id v t = record t {
  readers =
      insert_or_update (is_reader reader_id)
        (record { reader_id = reader_id; current_key_version = v }) t.readers;
}

-- INSERT OR IGNORE INTO reader_doors; `none` is a violated foreign key, which OR IGNORE does not
-- ignore.
abbrev pub store_reader_door : ℕ → ℕ → Tables → Option Tables
store_reader_door reader_id door_id t =
    if any_row (is_reader reader_id) t.readers
    then some (record t {
      reader_doors =
          insert_or_ignore (is_reader_door reader_id door_id)
            (record { reader_id = reader_id; door_id = door_id }) t.reader_doors;
    })
    else none

-- DELETE FROM readers; ON DELETE CASCADE removes a reader's doors with it.
abbrev pub remove_reader : ℕ → Tables → Tables
remove_reader reader_id t = record t {
  readers = remove_rows (is_reader reader_id) t.readers;
  reader_doors = remove_rows (is_door_of reader_id) t.reader_doors;
}

-- DELETE FROM reader_doors
abbrev pub remove_reader_door : ℕ → ℕ → Tables → Tables
remove_reader_door reader_id door_id t = record t {
  reader_doors = remove_rows (is_reader_door reader_id door_id) t.reader_doors;
}

-- DELETE FROM door_roles
abbrev pub remove_door_role : ℕ → List ℕ → Tables → Tables
remove_door_role door_id role t = record t {
  door_roles = remove_rows (is_door_role door_id role) t.door_roles;
}

-- DELETE FROM cards
abbrev pub remove_card : List ℕ → Tables → Tables
remove_card card_hmac t = record t { cards = remove_rows (is_card card_hmac) t.cards }

-- What each statement says it does to the tables; `none` is an error.
unfoldable pub effect : Statement → Tables → Option Tables
unfolding insert_or_ignore insert_or_update is_card is_door_role is_reader is_reader_door is_door_of
    remove_rows any_row
effect (put_card card_hmac role) t = some (store_card card_hmac role t)
effect (put_door_role door_id role) t = some (store_door_role door_id role t)
effect (put_reader reader_id v) t = some (store_reader reader_id v t)
effect (put_reader_door reader_id door_id) t = store_reader_door reader_id door_id t
effect (drop_reader reader_id) t = some (remove_reader reader_id t)
effect (drop_reader_door reader_id door_id) t = some (remove_reader_door reader_id door_id t)
effect (drop_door_role door_id role) t = some (remove_door_role door_id role t)
effect (drop_card card_hmac) t = some (remove_card card_hmac t)

pub record AccessDb (S : Type 0) : Type 0 where
  pub tables : S → Tables
  -- whether sqlite3_step of a SELECT gives its rows; otherwise it gives an error at once
  pub readable : S → Bool
  -- sqlite3_step of a statement; `none` is any result but SQLITE_DONE
  pub exec : S → Statement → Option S

-- A statement that is done has had its effect.
pub record HasEffect {S : Type 0} (db : AccessDb S) : Type 0 where
  pub executed :
      (s s' : S) (q : Statement)
      → db.exec s q ≡ some s'
      → effect q (db.tables s) ≡ some (db.tables s')
