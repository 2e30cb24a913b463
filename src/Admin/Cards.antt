-- ===== src/Admin/Cards.antt =====
-- What the registration of a card means for the engine.
use mathlib.Core.Path.{subst}
use access_security_system_e.Common.{
  ℕ, ◌/◌, ◌%◌, ◌<◌, ◌≡◌, refl, ap, sym, ◌∙◌, true, false, not, Option, none, some, List, [], ◌∷◌,
  arith, ◌==◌, bytes_eq_refl, inl, inr, Option-cases, some-inj,
}
use access_security_system_e.Common.Text.{str_eq, codes, c_str}
use access_security_system_e.Crypto.{Sodium}
use access_security_system_e.KeyManager.{KeyManager, derive_card_pepper}
use access_security_system_e.CardId.{hex_char, to_hex, hmac_hex, all_below_lem}
use access_security_system_e.Handler.{AccessStore, FrameHandlerConfig}
use access_security_system_e.Engine.Policy.{
  Resolved, resolve_with, resolve_card_hmac, check_role_access,
}
use access_security_system_e.Engine.Accepted.{policy_answer}
use access_security_system_e.Store.{AccessDb, HasEffect, put_card}
use access_security_system_e.Store.Operations.{as_store, run_command, upsert_card_hmac}
use access_security_system_e.Store.Refinement.{spec, run_command_refines}
use access_security_system_e.Admin.{App, ServiceResult, value_or, after, admin_event, upsert_card}

hex_char-NotZero : (i : ℕ) → i < 16 → (hex_char i == 0) ≡ false
unfolding hex_char
hex_char-NotZero i h = ground (arith, all_below_lem 16 i (λ j. not (hex_char j == 0)) refl h)

-- A hexadecimal text is stored whole.
c_str-to_hex : (xs : List ℕ) → c_str (to_hex xs) ≡ to_hex xs
unfolding c_str to_hex
c_str-to_hex [] = refl
c_str-to_hex (x ∷ xs) =
    rw
      (
        hex_char-NotZero (x / 16 % 16) (omega arith),
        hex_char-NotZero (x % 16) (omega arith),
        c_str-to_hex xs,
      )
      refl

c_str-hmac_hex :
    (lib : Sodium) (pepper card hmac : List ℕ)
    → hmac_hex lib pepper card ≡ some hmac
    → c_str hmac ≡ hmac
unfolding hmac_hex
c_str-hmac_hex lib pepper [] hmac e = cc
c_str-hmac_hex lib pepper (b ∷ card) hmac e = subst (λ o. c_str o ≡ o) (some-inj e) (c_str-to_hex _)

none-some {ℓ} : {A : Type ℓ} {a : A} → none ≡ some a → ⊥
none-some e = cc

policy_ok :
    (lib : Sodium) (m : KeyManager) (c : FrameHandlerConfig) (store : AccessStore)
    (reader_id door_id : ℕ) (card pepper hmac role : List ℕ) (kv : ℕ)
    → str_eq c.pepper_mode "static" ≡ false
    → (store.current_key_version_for_reader reader_id == 0) ≡ false
    → store.current_key_version_for_reader reader_id ≡ kv
    → derive_card_pepper lib m kv ≡ some pepper
    → hmac_hex lib pepper card ≡ some hmac
    → store.role_for_card_hmac hmac ≡ some role
    → store.is_allowed door_id role ≡ true
    → policy_answer lib m c store reader_id door_id card (codes "open")
      ≡ some (record { allow = true; reason = "ok" })
unfolding policy_answer resolve_card_hmac resolve_with check_role_access
policy_ok lib m c store reader_id door_id card pepper hmac role kv versioned known version derived
      hashed found allowed =
    let current = store.current_key_version_for_reader reader_id in
    let resolved : Resolved = record { card_hmac = hmac; role = some role } in
    let pepper_now : derive_card_pepper lib m current ≡ some pepper =
      ap (derive_card_pepper lib m) version ∙ derived in
    let first : resolve_with lib m c store card current ≡ some resolved =
      rw (resolve_with, pepper_now, hashed, found) refl in
    let whole : resolve_card_hmac lib m c store card current ≡ some resolved =
      rw (resolve_card_hmac, versioned, first) refl in
    rw (policy_answer, bytes_eq_refl (codes "open"), known, whole, check_role_access, allowed) refl

module _ {S : Type 0} (access : AccessDb S) (lib : Sodium) (m : KeyManager) where
  -- What a registration that is done has done.
  record IsRegistered (card role : List ℕ) (kv : ℕ) (s s' : S) : Type 0 where
    pub pepper : List ℕ
    pub hmac : List ℕ
    pub derived : derive_card_pepper lib m kv ≡ some pepper
    pub hashed : hmac_hex lib pepper card ≡ some hmac
    pub stored : upsert_card_hmac access s hmac role ≡ some s'

  upsert_card-IsRegistered :
      (now current : ℕ) (app : App S) (card role : List ℕ) (key_version : Option ℕ)
      (result : ServiceResult)
      → (upsert_card access now lib m current app card role key_version).1 ≡ some result
      → IsRegistered card role
          (value_or key_version current)
          app.db
          (upsert_card access now lib m current app card role key_version).0.db
  unfolding upsert_card after admin_event
  upsert_card-IsRegistered now current app card role key_version result h =
      let kv = value_or key_version current in
      elim (Option-cases (derive_card_pepper lib m kv)) [
        | inl e ↦ absurd (none-some (rw (upsert_card, e) at h))
        | inr (pepper, e) ↦ elim (Option-cases (hmac_hex lib pepper card)) [
          | inl f ↦ absurd (none-some (rw (upsert_card, e, f) at h))
          | inr (hmac, f) ↦ elim (Option-cases (upsert_card_hmac access app.db hmac role)) [
            | inl g ↦ absurd (none-some (rw (upsert_card, e, f, after, g) at h))
            | inr (s', g) ↦
                let db : (upsert_card access now lib m current app card role key_version).0.db
                    ≡ s' =
                  rw (upsert_card, e, f, after, g) refl in
                record {
                  pepper = pepper;
                  hmac = hmac;
                  derived = e;
                  hashed = f;
                  stored = g ∙ ap some (sym db);
                }
          ]
        ]
      ]

  module _ (law : HasEffect access) (c : FrameHandlerConfig) where
    registered_role :
        (card role : List ℕ) (kv : ℕ) (s s' : S) (r : IsRegistered card role kv s s')
        → access.readable s ≡ true
        → access.readable s' ≡ true
        → (as_store access s').role_for_card_hmac r.hmac ≡ some (c_str role)
    unfolding run_command spec
    registered_role card role kv s s' r a b =
        let same = run_command_refines access law (put_card r.hmac role) s s' a b r.stored in
        same.same_role r.hmac
        ∙ rw (c_str-hmac_hex lib r.pepper card r.hmac r.hashed, bytes_eq_refl r.hmac) refl

    -- A card that the administration has registered opens the doors of its role: the policy's answer
    -- is "ok" at every reader whose key version is the one that the card was registered with, and at
    -- every door that allows the role, with peppers by key version and a database that can be read,
    -- when SQLite's statements have their effect.
    pub registered_card_granted :
        (now current : ℕ) (app : App S) (card role : List ℕ) (key_version : Option ℕ)
        (result : ServiceResult) (reader_id door_id : ℕ)
        → let app' = (upsert_card access now lib m current app card role key_version).0 in
          let store = as_store access app'.db in
          (upsert_card access now lib m current app card role key_version).1 ≡ some result
          → access.readable app.db ≡ true
          → access.readable app'.db ≡ true
          → str_eq c.pepper_mode "static" ≡ false
          → (store.current_key_version_for_reader reader_id == 0) ≡ false
          → store.current_key_version_for_reader reader_id ≡ value_or key_version current
          → store.is_allowed door_id (c_str role) ≡ true
          → policy_answer lib m c store reader_id door_id card (codes "open")
            ≡ some (record { allow = true; reason = "ok" })
    registered_card_granted now current app card role key_version result reader_id door_id done a b
          versioned known version allowed =
        let r = upsert_card-IsRegistered now current app card role key_version result done in
        let found = registered_role card role (value_or key_version current) app.db _ r a b in
        policy_ok lib m c (as_store access _) reader_id door_id card r.pepper r.hmac (c_str role)
          (value_or key_version current) versioned known version r.derived r.hashed found allowed
