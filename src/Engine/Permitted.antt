-- ===== src/Engine/Permitted.antt =====
-- What the policy has found where it allows a payload.
use access_security_system_e.Common.{
  ℕ, ◌≡◌, ap, ◌∙◌, true, false, Option, none, some, List, String, inl, inr, arith, ◌==◌, Bool-cases,
  Option-cases, bytes_eq, some-inj,
}
use access_security_system_e.Common.Text.{codes}
use access_security_system_e.Protocol.Frame.{Header}
use access_security_system_e.Crypto.{Sodium}
use access_security_system_e.KeyManager.{KeyManager}
use access_security_system_e.Handler.{AccessStore, FrameHandlerConfig, HandleResult}
use access_security_system_e.Payload.{JsonLib, AccessRequest, parse_access_request_json}
use access_security_system_e.Engine.{DecisionResult, EngineState, denied, answer_logged}
use access_security_system_e.Engine.Policy.{
  Resolved, refuse, resolve_card_hmac, check_role_access, decide_role, check_store_policy,
  check_access_policy,
}
use access_security_system_e.Engine.Decide.{decide_payload}
use access_security_system_e.Common.{bytes_eq_sound}

-- The payload of an accepted frame permits what it asks: to open the frame's door, for a card that
-- has a role which the store allows there.
pub record IsPermitted {V : Type 0} (json : JsonLib V) (lib : Sodium) (m : KeyManager)
    (c : FrameHandlerConfig) (s : AccessStore) (header : Header) (plaintext : List ℕ) : Type 0 where
  pub request : AccessRequest
  pub resolved : Resolved
  pub role : List ℕ
  pub parsed : parse_access_request_json json plaintext ≡ some request
  pub opens : request.action ≡ codes "open"
  pub card_known :
      resolve_card_hmac lib m c s request.card_id
        (s.current_key_version_for_reader header.reader_id)
      ≡ some resolved
  pub has_role : resolved.role ≡ some role
  pub allowed : s.is_allowed header.door_id role ≡ true

false-true : false ≡ true → ⊥
false-true e = cc

pub none-some' : {r : DecisionResult} → none ≡ some r → ⊥
none-some' e = cc

pub answer_logged_inv :
    (st : EngineState) (logged : Option EngineState) (q r : DecisionResult)
    → (answer_logged st logged q).result ≡ some r
    → q ≡ r
unfolding answer_logged
answer_logged_inv st none q r h = absurd (none-some' h)
answer_logged_inv st (some st') q r h = some-inj h

pub not_denied :
    (st : EngineState) (logged : Option EngineState) (reason : String) (r : DecisionResult)
    → (answer_logged st logged (denied reason)).result ≡ some r
    → r.allow ≡ true
    → ⊥
not_denied st logged reason r h a =
    false-true (ap (λ q. q.allow) (answer_logged_inv st logged (denied reason) r h) ∙ a)

module _ {V : Type 0} (json : JsonLib V) (lib : Sodium) (m : KeyManager)
    (c : FrameHandlerConfig) where
  unfoldable pub Permits : Option AccessStore → HandleResult → Type 0
  Permits store fr =
      (s : AccessStore) × (store ≡ some s) × IsPermitted json lib m c s fr.header fr.plaintext

  check_role_inv :
      (s : AccessStore) (door : ℕ) (role : List ℕ)
      → (check_role_access s door role).allow ≡ true
      → s.is_allowed door role ≡ true
  unfolding check_role_access
  check_role_inv s door role h = ground arith

  check_store_policy_inv :
      (s : AccessStore) (now : ℕ) (st : EngineState) (fr : HandleResult) (request : AccessRequest)
      (r : DecisionResult)
      → (check_store_policy lib m c s now st fr request).result ≡ some r
      → r.allow ≡ true
      → (resolved : Resolved) × (role : List ℕ) × (resolve_card_hmac lib m c s request.card_id
            (s.current_key_version_for_reader fr.header.reader_id)
          ≡ some resolved)
        × (resolved.role ≡ some role)
        × (s.is_allowed fr.header.door_id role ≡ true)
  unfolding check_store_policy decide_role refuse
  check_store_policy_inv s now st fr request r h a =
      let kv = s.current_key_version_for_reader fr.header.reader_id in
      elim (Bool-cases (kv == 0)) [
        | inl z ↦ absurd (not_denied _ _ _ _ (rw (check_store_policy, z, refuse) at h) a)
        | inr z ↦ elim (Option-cases (resolve_card_hmac lib m c s request.card_id kv)) [
          | inl t ↦ absurd (none-some' (rw (check_store_policy, z, t) at h))
          | inr (resolved, t) ↦ elim (Option-cases resolved.role) [
            | inl k ↦
                absurd (
                  not_denied _ _ _ _ (rw (check_store_policy, z, t, decide_role, k, refuse) at h) a)
            | inr (role, k) ↦
                let same : check_role_access s fr.header.door_id role ≡ r =
                  answer_logged_inv _ _ _ _ (rw (check_store_policy, z, t, decide_role, k) at h) in
                (
                  resolved,
                  role,
                  t,
                  k,
                  check_role_inv s fr.header.door_id role (ap (λ q. q.allow) same ∙ a),
                )
          ]
        ]
      ]

  pub decide_payload_inv :
      (store : Option AccessStore) (now : ℕ) (st : EngineState) (fr : HandleResult)
      (r : DecisionResult)
      → (decide_payload json lib m c store now st fr).result ≡ some r
      → r.allow ≡ true
      → Permits store fr
  unfolding decide_payload check_access_policy refuse Permits
  decide_payload_inv store now st fr r h a =
      elim (Option-cases (parse_access_request_json json fr.plaintext)) [
        | inl p ↦ absurd (not_denied _ _ _ _ (rw (decide_payload, p, refuse) at h) a)
        | inr (request, p) ↦ elim (Bool-cases (bytes_eq request.action (codes "open"))) [
          | inr o ↦
              absurd
                (not_denied _ _ _ _ (rw (decide_payload, p, check_access_policy, o, refuse) at h) a)
          | inl o ↦ elim (Option-cases store) [
            | inl n ↦ absurd (
                not_denied _ _ _ _ (rw (decide_payload, p, check_access_policy, o, n, refuse) at h)
                  a)
            | inr (s, n) ↦
                let (resolved, role, t, k, w) =
                  check_store_policy_inv s now st fr request r
                    (rw (decide_payload, p, check_access_policy, o, n) at h) a in
                (
                  s,
                  n,
                  record {
                    request = request;
                    resolved = resolved;
                    role = role;
                    parsed = p;
                    opens = bytes_eq_sound request.action (codes "open") o;
                    card_known = t;
                    has_role = k;
                    allowed = w;
                  },
                )
          ]
        ]
      ]
