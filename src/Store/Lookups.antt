-- ===== src/Store/Lookups.antt =====
-- How the lookups in a table change when a row is put or dropped.
use mathlib.Core.Path.{subst, ap₂}
use access_security_system_e.Common.{
  ℕ, ◌≡◌, refl, ap, sym, ◌∙◌, Bool, true, false, not, ◌&&◌, ◌||◌, Option, none, some, List, [], ◌∷◌,
  inl, inr, arith, ◌==◌, if◌then◌else◌, bytes_eq, bytes_eq_sound, ==_iff, Bool-cases,
}
use access_security_system_e.Common.Text.{c_str}
use access_security_system_e.Common.Rows.{
  any_row, find_row, remove_rows, any_row-remove_rows, any_row_same, any_row_none,
  find_row-remove_rows_same, find_row-remove_rows_other,
}
use access_security_system_e.Store.{
  ReaderRow, ReaderDoorRow, DoorRoleRow, CardRow, is_card, is_door_role, is_reader, is_reader_door,
  insert_or_ignore, insert_or_update,
}
use access_security_system_e.Store.Operations.{positive_int}

pub c_str_twice : (s : List ℕ) → c_str (c_str s) ≡ c_str s
unfolding c_str
c_str_twice [] = refl
c_str_twice (b ∷ s) = ground (arith, c_str_twice s)

pub bytes_eq_sym : (s t : List ℕ) → bytes_eq s t ≡ bytes_eq t s
unfolding bytes_eq
bytes_eq_sym [] [] = refl
bytes_eq_sym [] (y ∷ t) = refl
bytes_eq_sym (x ∷ s) [] = refl
bytes_eq_sym (x ∷ s) (y ∷ t) = ground (arith, bytes_eq_sym s t)

-- A text that equals one of two is compared with the other as the two are.
pub bytes_eq_with : (s t k : List ℕ) → bytes_eq s k ≡ true → bytes_eq s t ≡ bytes_eq t k
bytes_eq_with s t k e = bytes_eq_sym s t ∙ ap (bytes_eq t) (bytes_eq_sound s k e)

pub bytes_eq_either :
    (s t k : List ℕ) → (bytes_eq s k && not (bytes_eq s t)) ≡ (not (bytes_eq t k) && bytes_eq s k)
bytes_eq_either s t k = ground (arith, bytes_eq_with s t k)

pub any_row-drop {ℓ} :
    {A : Type ℓ} (p q : A → Bool) (b : Bool) (xs : List A)
    → ((x : A) → (p x && not (q x)) ≡ (not b && p x))
    → any_row p (remove_rows q xs) ≡ (not b && any_row p xs)
any_row-drop p q true xs h = any_row-remove_rows p q xs ∙ any_row_none _ xs h
any_row-drop p q false xs h = any_row-remove_rows p q xs ∙ any_row_same _ p xs h

pub any_row-insert_or_ignore {ℓ} :
    {A : Type ℓ} (p q : A → Bool) (row : A) (xs : List A)
    → (p row ≡ true → (x : A) → p x ≡ q x)
    → any_row p (insert_or_ignore q row xs) ≡ (p row || any_row p xs)
unfolding insert_or_ignore any_row
any_row-insert_or_ignore p q row xs h = elim (Bool-cases (any_row q xs)) [
  | inr e ↦ rw (insert_or_ignore, e, any_row) refl
  | inl e ↦ elim (Bool-cases (p row)) [
    | inr f ↦ rw (insert_or_ignore, e, f) refl
    | inl f ↦ rw (insert_or_ignore, e, f) (any_row_same p q xs (h f) ∙ e)
  ]
]

pub find_row-insert_or_update {ℓ} :
    {A : Type ℓ} (p q : A → Bool) (row : A) (xs : List A)
    → (p row ≡ false → (x : A) → p x ≡ true → q x ≡ false)
    → find_row p (insert_or_update q row xs) ≡ (if p row then some row else find_row p xs)
unfolding insert_or_update find_row
find_row-insert_or_update p q row xs h = elim (Bool-cases (p row)) [
  | inl f ↦ rw (insert_or_update, find_row, f) refl
  | inr f ↦ rw (insert_or_update, find_row, f) (find_row-remove_rows_other p q xs (h f))
]

-- Removing the rows with a key, of which the lookup is for one or another.
pub find_row-drop {ℓ} :
    {A : Type ℓ} (p q : A → Bool) (b : Bool) (xs : List A)
    → (b ≡ true → p ≡ q)
    → (b ≡ false → (x : A) → p x ≡ true → q x ≡ false)
    → find_row p (remove_rows q xs) ≡ (if b then none else find_row p xs)
find_row-drop p q true xs h k =
    subst (λ o. find_row o (remove_rows q xs) ≡ none) (sym (h refl))
      (find_row-remove_rows_same q xs)
find_row-drop p q false xs h k = find_row-remove_rows_other p q xs (k refl)

unfoldable pub role_row : Option CardRow → Option (List ℕ)
role_row o = elim o [ none ↦ none | some row ↦ some (c_str row.role) ]

unfoldable pub version_row : Option ReaderRow → ℕ
version_row o = elim o [ none ↦ 0 | some row ↦ positive_int row.current_key_version ]

pub not_both : (s k h : List ℕ) → bytes_eq h k ≡ false → bytes_eq s k ≡ true → bytes_eq s h ≡ false
not_both s k h n e = bytes_eq_with s h k e ∙ n

pub role_put :
    (h r k : List ℕ) (xs : List CardRow)
    → role_row (
        find_row
          (is_card k)
          (insert_or_update (is_card h) (record { card_hmac = h; role = c_str r }) xs))
      ≡ (if bytes_eq h k then some (c_str r) else role_row (find_row (is_card k) xs))
unfolding is_card role_row
role_put h r k xs =
    let found =
      find_row-insert_or_update (is_card k) (is_card h) (record { card_hmac = h; role = c_str r })
        xs (λ n x e. not_both x.card_hmac k h n e) in
    ap role_row found ∙ elim (Bool-cases (bytes_eq h k)) [
      | inl e ↦ rw (e, role_row) (ap some (c_str_twice r))
      | inr e ↦ rw e refl
    ]

pub role_drop :
    (h k : List ℕ) (xs : List CardRow)
    → role_row (find_row (is_card k) (remove_rows (is_card h) xs))
      ≡ (if bytes_eq h k then none else role_row (find_row (is_card k) xs))
unfolding is_card role_row
role_drop h k xs =
    ap role_row (
      find_row-drop (is_card k) (is_card h) (bytes_eq h k) xs
        (λ e. ap is_card (sym (bytes_eq_sound h k e))) (λ n x e. not_both x.card_hmac k h n e))
    ∙ elim (Bool-cases (bytes_eq h k)) [ inl e ↦ rw (e, role_row) refl | inr e ↦ rw e refl ]

pub version_put :
    (r v k : ℕ) (xs : List ReaderRow)
    → version_row (
        find_row
          (is_reader k)
          (insert_or_update (is_reader r) (record { reader_id = r; current_key_version = v }) xs))
      ≡ (if r == k then positive_int v else version_row (find_row (is_reader k) xs))
unfolding is_reader version_row
version_put r v k xs =
    ap version_row (
      find_row-insert_or_update (is_reader k) (is_reader r)
        (record { reader_id = r; current_key_version = v }) xs (λ n x e. ground arith))
    ∙ elim (Bool-cases (r == k)) [ inl e ↦ rw (e, version_row) refl | inr e ↦ rw e refl ]

pub version_drop :
    (r k : ℕ) (xs : List ReaderRow)
    → version_row (find_row (is_reader k) (remove_rows (is_reader r) xs))
      ≡ (if r == k then 0 else version_row (find_row (is_reader k) xs))
unfolding is_reader version_row
version_drop r k xs =
    ap version_row (
      find_row-drop (is_reader k) (is_reader r) (r == k) xs
        (λ e. ap is_reader (sym ((==_iff r k).0 e))) (λ n x e. ground arith))
    ∙ elim (Bool-cases (r == k)) [ inl e ↦ rw (e, version_row) refl | inr e ↦ rw e refl ]

pub same_door_role :
    (d door : ℕ) (r role : List ℕ)
    → ((d == door) && bytes_eq r role) ≡ true
    → (x : DoorRoleRow) → is_door_role door role x ≡ is_door_role d r x
unfolding is_door_role
same_door_role d door r role h x =
    let numbers : d ≡ door = ground arith in
    let texts : r ≡ role = bytes_eq_sound r role (ground arith) in
    ap₂ (λ (i : ℕ) (t : List ℕ). (x.door_id == i) && bytes_eq x.role t) (sym numbers) (sym texts)

pub door_role_drop :
    (d door : ℕ) (r role : List ℕ) (x : DoorRoleRow)
    → (is_door_role door role x && not (is_door_role d r x))
      ≡ (not ((d == door) && bytes_eq r role) && is_door_role door role x)
unfolding is_door_role
door_role_drop d door r role x = ground (arith, bytes_eq_either x.role r role)

pub same_reader_door :
    (r k d door : ℕ)
    → ((r == k) && (d == door)) ≡ true
    → (x : ReaderDoorRow) → is_reader_door k door x ≡ is_reader_door r d x
unfolding is_reader_door
same_reader_door r k d door h x = ground arith
