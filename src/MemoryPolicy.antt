-- ===== src/MemoryPolicy.antt =====
-- access_decision/include/access_decision/policy.hpp and access_decision/src/policy.cpp: the policy
-- in memory. The maps are lists of entries with one entry for a key.
use access_security_system_e.Common.{
  ℕ, ◌≡◌, Bool, true, none, some, List, [], arith, bytes_eq_refl, Bool-cases, inl, inr,
}
use access_security_system_e.Common.Rows.{any_row, find_row}
use access_security_system_e.Store.{CardRow, DoorRoleRow, is_card, is_door_role, insert_or_ignore}

-- _cardToRole and _doorAllowedRoles
pub record AccessPolicy : Type 0 where
  pub card_to_role : List CardRow
  pub door_allowed_roles : List DoorRoleRow

-- emplace: a card that is there keeps its role.
unfoldable pub add_card : List ℕ → List ℕ → AccessPolicy → AccessPolicy
unfolding insert_or_ignore is_card
add_card card_id role p = record p {
  card_to_role =
      insert_or_ignore (is_card card_id) (record { card_hmac = card_id; role = role })
        p.card_to_role;
}

unfoldable pub allow_role : ℕ → List ℕ → AccessPolicy → AccessPolicy
unfolding insert_or_ignore is_door_role
allow_role door_id role p = record p {
  door_allowed_roles =
      insert_or_ignore (is_door_role door_id role) (record { door_id = door_id; role = role })
        p.door_allowed_roles;
}

-- The empty text where the card is not found.
unfoldable pub role_for_card : List ℕ → AccessPolicy → List ℕ
unfolding find_row is_card
role_for_card card_id p = elim (find_row (is_card card_id) p.card_to_role) [
  | none ↦ []
  | some row ↦ row.role
]

unfoldable pub is_allowed : ℕ → List ℕ → AccessPolicy → Bool
unfolding any_row is_door_role
is_allowed door_id role p = any_row (is_door_role door_id role) p.door_allowed_roles

-- A role that was allowed for a door stays allowed there.
is_allowed-allow_role :
    (door_id : ℕ) (role : List ℕ) (p : AccessPolicy)
    → is_allowed door_id role (allow_role door_id role p) ≡ true
unfolding is_allowed allow_role insert_or_ignore any_row is_door_role
is_allowed-allow_role door_id role p =
    elim (Bool-cases (any_row (is_door_role door_id role) p.door_allowed_roles)) [
      | inl e ↦ rw (insert_or_ignore, e) e
      | inr e ↦ rw (insert_or_ignore, e, any_row) (ground (arith, bytes_eq_refl role))
    ]
