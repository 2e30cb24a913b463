-- ===== src/Engine/Resolve.antt =====
-- A parsed request's card always resolves: no derivation of a pepper and no hash throws.
use access_security_system_e.Common.{
  ℕ, ◌-◌, ◌≡◌, refl, ap, sym, ◌∙◌, false, ◌&&◌, none, some, List, [], ◌∷◌, inl, inr, arith, ltb,
  ◌==◌, Bool-cases, Option-cases, some-inj, ◌⊎◌,
}
use access_security_system_e.Common.Text.{str_eq, codes}
use access_security_system_e.Crypto.{Sodium, HasHmacLength}
use access_security_system_e.KeyManager.{KeyManager, derive_card_pepper_total}
use access_security_system_e.Handler.{AccessStore, FrameHandlerConfig}
use access_security_system_e.CardId.{hmac_hex, to_hex}
use access_security_system_e.Payload.{
  JsonLib, AccessRequest, parse_access_request_json, request_of, non_empty, string_member,
}
use access_security_system_e.Engine.Policy.{
  Resolved, resolve_with, resolve_previous, resolve_card_hmac,
}

none-some {ℓ} : {A : Type ℓ} {a : A} → none ≡ some a → ⊥
none-some e = cc

List-cases : (xs : List ℕ) → (xs ≡ []) ⊎ ((x : ℕ) × (rest : List ℕ) × (xs ≡ x ∷ rest))
List-cases [] = inl refl
List-cases (x ∷ xs) = inr (x, xs, refl)

-- A request that passes the checks of empty strings.
non_empty_inv :
    {V : Type 0} (json : JsonLib V) (r request : AccessRequest)
    → non_empty json r ≡ some request
    → (b : ℕ) × (rest : List ℕ) × (request.card_id ≡ b ∷ rest)
unfolding non_empty
non_empty_inv json r request h = elim (List-cases r.card_id) [
  | inl e ↦ absurd (none-some (rw (non_empty, e) at h))
  | inr (b, rest, e) ↦ elim (List-cases r.action) [
    | inl f ↦ absurd (none-some (rw (non_empty, e, f) at h))
    | inr (a, more, f) ↦
        let same : r ≡ request = some-inj (rw (non_empty, e, f) at h) in
        (b, rest, ap (λ q. q.card_id) (sym same) ∙ e)
  ]
]

-- A parsed request names a card.
pub card_id_given :
    {V : Type 0} (json : JsonLib V) (text : List ℕ) (request : AccessRequest)
    → parse_access_request_json json text ≡ some request
    → (b : ℕ) × (rest : List ℕ) × (request.card_id ≡ b ∷ rest)
unfolding parse_access_request_json request_of
card_id_given json text request h = elim (Option-cases (json.parse text)) [
  | inl e ↦ absurd (none-some (rw (parse_access_request_json, e) at h))
  | inr (v, e) ↦ elim (Bool-cases (json.is_object v)) [
    | inr o ↦ absurd (none-some (rw (parse_access_request_json, e, request_of, o) at h))
    | inl o ↦ elim (Option-cases (string_member json v (codes "card_id"))) [
      | inl s ↦ absurd (none-some (rw (parse_access_request_json, e, request_of, o, s) at h))
      | inr (card_id, s) ↦ elim (Option-cases (string_member json v (codes "action"))) [
        | inl t ↦ absurd (none-some (rw (parse_access_request_json, e, request_of, o, s, t) at h))
        | inr (action, t) ↦
            non_empty_inv json (record { card_id = card_id; action = action }) request
              (rw (parse_access_request_json, e, request_of, o, s, t) at h)
      ]
    ]
  ]
]

module _ (lib : Sodium) (law : HasHmacLength lib) (m : KeyManager) (c : FrameHandlerConfig) where
  resolve_with_total :
      (store : AccessStore) (card_id : List ℕ) (key_version b : ℕ) (rest : List ℕ)
      → card_id ≡ b ∷ rest
      → (key_version == 0) ≡ false
      → (r : Resolved) × (resolve_with lib m c store card_id key_version ≡ some r)
  unfolding resolve_with hmac_hex
  resolve_with_total store card_id key_version b rest e h =
      let (pepper, p, n) = derive_card_pepper_total lib law m key_version h in
      let card_hmac = to_hex (lib.hmac_sha256 pepper (b ∷ rest)) in
      (
        record { card_hmac = card_hmac; role = store.role_for_card_hmac card_hmac },
        rw (resolve_with, p, e) refl,
      )

  pub resolve_card_hmac_total :
      (store : AccessStore) (card_id : List ℕ) (current_kv b : ℕ) (rest : List ℕ)
      → card_id ≡ b ∷ rest
      → (current_kv == 0) ≡ false
      → (r : Resolved) × (resolve_card_hmac lib m c store card_id current_kv ≡ some r)
  unfolding resolve_card_hmac resolve_previous
  resolve_card_hmac_total store card_id current_kv b rest e h =
      elim (Bool-cases (str_eq c.pepper_mode "static")) [
        | inl static ↦
            let (r, s) = resolve_with_total store card_id 1 b rest e refl in
            (r, rw (resolve_card_hmac, static) s)
        | inr versioned ↦
            let (r, s) = resolve_with_total store card_id current_kv b rest e h in
            elim (Option-cases r.role) [
              | inr (role, k) ↦ (r, rw (resolve_card_hmac, versioned, s, k) refl)
              | inl k ↦ elim (Bool-cases (c.allow_previous_key_version && ltb 1 current_kv)) [
                | inr alone ↦ (r, rw (resolve_card_hmac, versioned, s, k, alone) refl)
                | inl two ↦
                    let (q, t) =
                      resolve_with_total store card_id (current_kv - 1) b rest e (ground arith) in
                    elim (Option-cases q.role) [
                      | inl o ↦ (
                        r,
                        rw (resolve_card_hmac, versioned, s, k, two, resolve_previous, t, o) refl,
                      )
                      | inr (role, o) ↦ (
                        q,
                        rw (resolve_card_hmac, versioned, s, k, two, resolve_previous, t, o) refl,
                      )
                    ]
              ]
            ]
      ]
