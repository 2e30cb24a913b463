-- ===== src/Store/Refinement.antt =====
-- What the store promises: four lookups, each changed in one place by an operation.
use mathlib.Core.Path.{subst}
use access_security_system_e.Common.{
  ℕ, ◌≡◌, refl, ap, sym, Bool, true, not, ◌&&◌, ◌||◌, Option, none, some, List, inl, inr, arith,
  ◌==◌, if◌then◌else◌, bytes_eq, Bool-cases, some-inj,
}
use access_security_system_e.Common.Text.{c_str}
use access_security_system_e.Common.Rows.{any_row, find_row}
use access_security_system_e.Handler.{AccessStore}
use access_security_system_e.Store.{
  ReaderDoorRow, Tables, Statement, put_card, put_door_role, put_reader, put_reader_door,
  drop_reader, drop_reader_door, drop_door_role, drop_card, is_card, is_door_role, is_reader,
  is_reader_door, is_door_of, effect, AccessDb, HasEffect,
}
use access_security_system_e.Store.Operations.{
  run_command, positive_int, as_store, role_for_card, is_role_allowed, key_version_of,
  is_door_allowed,
}
use access_security_system_e.Store.Lookups.{
  any_row-drop, any_row-insert_or_ignore, role_row, version_row, role_put, role_drop, version_put,
  version_drop, same_door_role, door_role_drop, same_reader_door,
}

-- The policy after an operation. A text ends at its first NUL when it is stored; a version that is
-- no positive `int` reads as 0, and a reader without a row has the version 0 too.
unfoldable pub spec : Statement → AccessStore → AccessStore
unfolding c_str bytes_eq positive_int
spec (put_card h r) p = record p {
  role_for_card_hmac = λ k. if bytes_eq (c_str h) k then some (c_str r) else p.role_for_card_hmac k;
}
spec (put_door_role d r) p = record p {
  is_allowed = λ door role. ((d == door) && bytes_eq (c_str r) role) || p.is_allowed door role;
}
spec (put_reader r v) p = record p {
  current_key_version_for_reader =
      λ k. if r == k then positive_int v else p.current_key_version_for_reader k;
}
spec (put_reader_door r d) p = record p {
  is_reader_allowed_door = λ k door. ((r == k) && (d == door)) || p.is_reader_allowed_door k door;
}
spec (drop_reader r) p = record p {
  current_key_version_for_reader = λ k. if r == k then 0 else p.current_key_version_for_reader k;
  is_reader_allowed_door = λ k door. not (r == k) && p.is_reader_allowed_door k door;
}
spec (drop_reader_door r d) p = record p {
  is_reader_allowed_door =
      λ k door. not ((r == k) && (d == door)) && p.is_reader_allowed_door k door;
}
spec (drop_door_role d r) p = record p {
  is_allowed = λ door role. not ((d == door) && bytes_eq r role) && p.is_allowed door role;
}
spec (drop_card h) p = record p {
  role_for_card_hmac = λ k. if bytes_eq h k then none else p.role_for_card_hmac k;
}

-- Two stores that answer alike.
pub record IsSame (p q : AccessStore) : Type 0 where
  pub same_role : (k : List ℕ) → p.role_for_card_hmac k ≡ q.role_for_card_hmac k
  pub same_allowed : (d : ℕ) (r : List ℕ) → p.is_allowed d r ≡ q.is_allowed d r
  pub same_version :
      (r : ℕ) → p.current_key_version_for_reader r ≡ q.current_key_version_for_reader r
  pub same_door : (r d : ℕ) → p.is_reader_allowed_door r d ≡ q.is_reader_allowed_door r d

-- The lookups in tables that can be read.
unfoldable role_in : Tables → List ℕ → Option (List ℕ)
role_in t k = elim (find_row (is_card k) t.cards) [ none ↦ none | some row ↦ some (c_str row.role) ]

unfoldable version_in : Tables → ℕ → ℕ
version_in t r = elim (find_row (is_reader r) t.readers) [
  | none ↦ 0
  | some row ↦ positive_int row.current_key_version
]

unfoldable view : Tables → AccessStore
unfolding role_in version_in any_row find_row
view t = record {
  role_for_card_hmac = role_in t;
  is_allowed = λ d r. any_row (is_door_role d r) t.door_roles;
  current_key_version_for_reader = version_in t;
  is_reader_allowed_door = λ r d. any_row (is_reader_door r d) t.reader_doors;
}

-- The statement with the texts as they are bound.
unfoldable bound : Statement → Statement
bound (put_card h r) = put_card (c_str h) (c_str r)
bound (put_door_role d r) = put_door_role d (c_str r)
bound (put_reader r v) = put_reader r v
bound (put_reader_door r d) = put_reader_door r d
bound (drop_reader r) = drop_reader r
bound (drop_reader_door r d) = drop_reader_door r d
bound (drop_door_role d r) = drop_door_role d r
bound (drop_card h) = drop_card h

none-some {ℓ} : {A : Type ℓ} {a : A} → none ≡ some a → ⊥
none-some e = cc

door_of_drop :
    (r k door : ℕ) (x : ReaderDoorRow)
    → (is_reader_door k door x && not (is_door_of r x)) ≡ (not (r == k) && is_reader_door k door x)
unfolding is_reader_door is_door_of
door_of_drop r k door x = ground arith

reader_door_drop :
    (r k d door : ℕ) (x : ReaderDoorRow)
    → (is_reader_door k door x && not (is_reader_door r d x))
      ≡ (not ((r == k) && (d == door)) && is_reader_door k door x)
unfolding is_reader_door
reader_door_drop r k d door x = ground arith

abbrev SameView : Statement → Tables → Tables → Type 0
SameView q t u = IsSame (view u) (spec q (view t))

view-spec :
    (q : Statement) (t t' : Tables)
    → effect (bound q) t ≡ some t'
    → IsSame (view t') (spec q (view t))
unfolding effect bound spec view role_in version_in role_row version_row
view-spec (put_card h r) t t' e = subst (SameView (put_card h r) t) (some-inj e) (record {
  same_role = λ k. role_put (c_str h) r k t.cards;
  same_allowed = λ d r. refl;
  same_version = λ r. refl;
  same_door = λ r d. refl;
})
view-spec (put_door_role d r) t t' e = subst (SameView (put_door_role d r) t) (some-inj e) (record {
  same_role = λ k. refl;
  same_allowed = λ door role.
      any_row-insert_or_ignore (is_door_role door role) (is_door_role d (c_str r)) _ t.door_roles
        (same_door_role d door (c_str r) role);
  same_version = λ r. refl;
  same_door = λ r d. refl;
})
view-spec (put_reader r v) t t' e = subst (SameView (put_reader r v) t) (some-inj e) (record {
  same_role = λ k. refl;
  same_allowed = λ d r. refl;
  same_version = λ k. version_put r v k t.readers;
  same_door = λ r d. refl;
})
view-spec (put_reader_door r d) t t' e = elim (Bool-cases (any_row (is_reader r) t.readers)) [
  | inr n ↦ absurd (none-some (rw (effect, bound, n) at e))
  | inl n ↦
      subst (SameView (put_reader_door r d) t) (some-inj (rw (effect, bound, n) at e)) (record {
        same_role = λ k. refl;
        same_allowed = λ d r. refl;
        same_version = λ r. refl;
        same_door = λ k door.
            any_row-insert_or_ignore (is_reader_door k door) (is_reader_door r d) _ t.reader_doors
              (same_reader_door r k d door);
      })
]
view-spec (drop_reader r) t t' e = subst (SameView (drop_reader r) t) (some-inj e) (record {
  same_role = λ k. refl;
  same_allowed = λ d r. refl;
  same_version = λ k. version_drop r k t.readers;
  same_door = λ k door.
      any_row-drop (is_reader_door k door) (is_door_of r) (r == k) t.reader_doors
        (λ x. door_of_drop r k door x);
})
view-spec (drop_reader_door r d) t t' e =
    subst (SameView (drop_reader_door r d) t) (some-inj e) (record {
      same_role = λ k. refl;
      same_allowed = λ d r. refl;
      same_version = λ r. refl;
      same_door = λ k door.
          any_row-drop (is_reader_door k door) (is_reader_door r d) ((r == k) && (d == door))
            t.reader_doors (λ x. reader_door_drop r k d door x);
    })
view-spec (drop_door_role d r) t t' e =
    subst (SameView (drop_door_role d r) t) (some-inj e) (record {
      same_role = λ k. refl;
      same_allowed = λ door role.
          any_row-drop (is_door_role door role) (is_door_role d r) ((d == door) && bytes_eq r role)
            t.door_roles (door_role_drop d door r role);
      same_version = λ r. refl;
      same_door = λ r d. refl;
    })
view-spec (drop_card h) t t' e = subst (SameView (drop_card h) t) (some-inj e) (record {
  same_role = λ k. role_drop h k t.cards;
  same_allowed = λ d r. refl;
  same_version = λ r. refl;
  same_door = λ r d. refl;
})

module _ {S : Type 0} (db : AccessDb S) (law : HasEffect db) where
  run_command-bound :
      (q : Statement) (s s' : S)
      → run_command db q s ≡ some s'
      → effect (bound q) (db.tables s) ≡ some (db.tables s')
  unfolding run_command bound
  run_command-bound (put_card h r) s s' e = law.executed s s' _ e
  run_command-bound (put_door_role d r) s s' e = law.executed s s' _ e
  run_command-bound (put_reader r v) s s' e = law.executed s s' _ e
  run_command-bound (put_reader_door r d) s s' e = law.executed s s' _ e
  run_command-bound (drop_reader r) s s' e = law.executed s s' _ e
  run_command-bound (drop_reader_door r d) s s' e = law.executed s s' _ e
  run_command-bound (drop_door_role d r) s s' e = law.executed s s' _ e
  run_command-bound (drop_card h) s s' e = law.executed s s' _ e

  -- A store whose tables are read or not.
  unfoldable store_when : Bool → Tables → AccessStore
  unfolding role_in version_in
  store_when b t = record {
    role_for_card_hmac = λ k. if b then role_in t k else none;
    is_allowed = λ d r. b && any_row (is_door_role d r) t.door_roles;
    current_key_version_for_reader = λ r. if b then version_in t r else 0;
    is_reader_allowed_door = λ r d. b && any_row (is_reader_door r d) t.reader_doors;
  }

  as_store-view : (s : S) → db.readable s ≡ true → as_store db s ≡ view (db.tables s)
  unfolding as_store view role_in version_in store_when role_for_card is_role_allowed key_version_of
      is_door_allowed
  as_store-view s e = ap (λ b. store_when b (db.tables s)) e

  -- Where the database can be read, every operation of the store that is done changes what the
  -- handler and the engine read exactly as the abstract policy says, when SQLite's statements have
  -- their effect.
  pub run_command_refines :
      (q : Statement) (s s' : S)
      → db.readable s ≡ true
      → db.readable s' ≡ true
      → run_command db q s ≡ some s'
      → IsSame (as_store db s') (spec q (as_store db s))
  run_command_refines q s s' e e' h =
      subst (λ p. IsSame p (spec q (as_store db s))) (sym (as_store-view s' e'))
        (subst (λ p. IsSame (view (db.tables s')) (spec q p)) (sym (as_store-view s e))
          (view-spec q (db.tables s) (db.tables s') (run_command-bound q s s' h)))
