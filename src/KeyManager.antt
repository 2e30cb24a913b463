-- ===== src/KeyManager.antt =====
-- key_manager/src/key_manager.cpp. The files that keys are loaded from are outside the model.
use access_security_system_e.Common.{
  ℕ, ◌+◌, ◌%◌, ◌≡◌, refl, Bool, true, false, ◌&&◌, Option, none, some, List, [], arith, length, ltb,
  ◌==◌, if◌then◌else◌,
}
use access_security_system_e.Common.Text.{codes}
use access_security_system_e.Protocol.Codec.{u32_mod, put_le32}
use access_security_system_e.Crypto.{Sodium, HasHmacLength}
use access_security_system_e.Crypto.Hkdf.{derive, length-derive}

-- KeyManagerConfig with the master key.
pub record KeyManager : Type 0 where
  pub master_key : List ℕ
  pub current_key_version : ℕ
  pub allow_previous_key_version : Bool

-- The constructor; `none` is std::invalid_argument.
unfoldable pub new_key_manager : List ℕ → ℕ → Bool → Option KeyManager
new_key_manager master_key current allow_previous =
    if current == 0
    then none
    else some (record {
      master_key = master_key;
      current_key_version = current;
      allow_previous_key_version = allow_previous;
    })

-- Previous version accepted: `keyVersion + 1` wraps at 32 bits.
unfoldable pub is_previous_version : ℕ → ℕ → Bool
is_previous_version current key_version = ltb 1 current && ((key_version + 1) % u32_mod == current)

unfoldable pub is_accepted_key_version : KeyManager → ℕ → Bool
unfolding is_previous_version
is_accepted_key_version m key_version =
    if key_version == 0
    then false
    else if key_version == m.current_key_version
    then true
    else m.allow_previous_key_version && is_previous_version m.current_key_version key_version

-- The salt of a reader's keys: the reader's id and the key version.
abbrev pub reader_salt : ℕ → ℕ → List ℕ
reader_salt reader_id key_version = put_le32 key_version (put_le32 reader_id [])

-- The check of the length that HKDF returned; `none` is std::runtime_error.
abbrev pub exactly_32 : Option (List ℕ) → Option (List ℕ)
exactly_32 none = none
exactly_32 (some okm) = if length okm == 32 then some okm else none

abbrev pub master_as_aead_key : KeyManager → List ℕ
master_as_aead_key m = m.master_key

module _ (lib : Sodium) where
  unfoldable pub derive_aead_key : KeyManager → ℕ → ℕ → Option (List ℕ)
  derive_aead_key m reader_id key_version =
      exactly_32
        (derive lib m.master_key (reader_salt reader_id key_version) (codes "access-aead-v1") 32)

  unfoldable pub derive_card_pepper : KeyManager → ℕ → Option (List ℕ)
  derive_card_pepper m key_version =
      if key_version == 0
      then none
      else exactly_32
          (derive lib m.master_key (put_le32 key_version []) (codes "card-pepper-v1") 32)

  unfoldable pub derive_nonce_key : KeyManager → ℕ → ℕ → Option (List ℕ)
  derive_nonce_key m reader_id key_version =
      exactly_32 (
        derive lib m.master_key (reader_salt reader_id key_version) (codes "nonce-derivation-v1")
          32)

  unfoldable pub derive_audit_hmac_key : KeyManager → Option (List ℕ)
  derive_audit_hmac_key m =
      exactly_32 (derive lib m.master_key (codes "audit-chain-salt-v1") (codes "audit-hmac-v1") 32)

  module _ (law : HasHmacLength lib) where
    derive_32 :
        (ikm salt info : List ℕ)
        → (okm : List ℕ) × (exactly_32 (derive lib ikm salt info 32) ≡ some okm) × (length okm ≡ 32)
    derive_32 ikm salt info =
        let (okm, e, n) = length-derive lib law ikm salt info 32 (omega arith) in
        (okm, rw (e, n) refl, n)

    -- No derivation of a reader's key throws, and the key has 32 bytes.
    pub derive_aead_key_total :
        (m : KeyManager) (reader_id key_version : ℕ)
        → (okm : List ℕ) × (derive_aead_key m reader_id key_version ≡ some okm) × (length okm ≡ 32)
    unfolding derive_aead_key
    derive_aead_key_total m reader_id key_version = derive_32 _ _ _

    pub derive_nonce_key_total :
        (m : KeyManager) (reader_id key_version : ℕ)
        → (okm : List ℕ) × (derive_nonce_key m reader_id key_version ≡ some okm) × (length okm ≡ 32)
    unfolding derive_nonce_key
    derive_nonce_key_total m reader_id key_version = derive_32 _ _ _

    pub derive_card_pepper_total :
        (m : KeyManager) (key_version : ℕ)
        → (key_version == 0) ≡ false
        → (okm : List ℕ) × (derive_card_pepper m key_version ≡ some okm) × (length okm ≡ 32)
    unfolding derive_card_pepper
    derive_card_pepper_total m key_version h = rw h (derive_32 _ _ _)
