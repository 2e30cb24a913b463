-- ===== src/Store/Listing.antt =====
-- The lists of the administration pages against the lookups, and their order.
use access_security_system_e.Common.{
  ℕ, ◌≡◌, refl, ap, ◌∙◌, Bool, true, not, ◌&&◌, ◌||◌, List, [], ◌∷◌, inl, inr, arith, ◌==◌,
  Bool-cases,
}
use access_security_system_e.Common.Rows.{any_row, remove_rows, any_row-remove_rows, any_row_same}
use access_security_system_e.Store.{ReaderDoorRow, AccessDb, is_reader_door, is_door_of}
use access_security_system_e.Store.Operations.{
  insert_row, order_by, list_reader_doors, is_door_allowed, reader_door_before, door_before,
}

any_row-insert_row {ℓ} :
    {A : Type ℓ} (p : A → Bool) (before : A → A → Bool) (x : A) (xs : List A)
    → any_row p (insert_row before x xs) ≡ (p x || any_row p xs)
unfolding any_row insert_row
any_row-insert_row p before x [] = refl
any_row-insert_row p before x (y ∷ ys) = ground (arith, any_row-insert_row p before x ys)

any_row-order_by {ℓ} :
    {A : Type ℓ} (p : A → Bool) (before : A → A → Bool) (xs : List A)
    → any_row p (order_by before xs) ≡ any_row p xs
unfolding any_row order_by
any_row-order_by p before [] = refl
any_row-order_by p before (x ∷ xs) =
    any_row-insert_row p before x (order_by before xs)
    ∙ ap (λ b. p x || b) (any_row-order_by p before xs)

of_reader :
    (shown reader_id door_id : ℕ) (x : ReaderDoorRow)
    → (shown == reader_id) ≡ true
    → (is_reader_door reader_id door_id x && not (not (is_door_of shown x)))
      ≡ is_reader_door reader_id door_id x
unfolding is_reader_door is_door_of
of_reader shown reader_id door_id x h = ground arith

module _ {S : Type 0} (db : AccessDb S) where
  -- The doors that are listed for a reader, and those for all readers (the reader 0), are those
  -- that the handler's check of the binding allows.
  pub list_reader_doors_allowed :
      (s : S) (shown reader_id door_id : ℕ)
      → ((shown == 0) || (shown == reader_id)) ≡ true
      → any_row (is_reader_door reader_id door_id) (list_reader_doors db s shown)
        ≡ is_door_allowed db s reader_id door_id
  unfolding list_reader_doors is_door_allowed any_row
  list_reader_doors_allowed s shown reader_id door_id h = elim (Bool-cases (db.readable s)) [
    | inr e ↦ rw (list_reader_doors, is_door_allowed, e) refl
    | inl e ↦ elim (Bool-cases (shown == 0)) [
      | inl z ↦
          rw (list_reader_doors, is_door_allowed, e, z)
            (any_row-order_by (is_reader_door reader_id door_id) reader_door_before
              (db.tables s).reader_doors)
      | inr z ↦
          rw (list_reader_doors, is_door_allowed, e, z)
            (any_row-order_by (is_reader_door reader_id door_id) door_before
                (remove_rows (λ row. not (is_door_of shown row)) (db.tables s).reader_doors)
              ∙ (any_row-remove_rows (is_reader_door reader_id door_id)
                    (λ row. not (is_door_of shown row)) (db.tables s).reader_doors
                  ∙ any_row_same _ (is_reader_door reader_id door_id) (db.tables s).reader_doors
                      (λ x. of_reader shown reader_id door_id x (ground arith))))
    ]
  ]
