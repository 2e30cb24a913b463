-- ===== src/Routes.antt =====
-- access_admin/src/main.cpp, the endpoint of the decision service, and the check of the token of
-- access_admin/src/routes_api.cpp over checkAuth of access_admin/src/http_utils.cpp.
use access_security_system_e.Common.{
  ℕ, Bool, true, Option, none, some, List, length, ◌==◌, if◌then◌else◌, bytes_eq,
}
use access_security_system_e.Crypto.{Sodium}
use access_security_system_e.KeyManager.{KeyManager}
use access_security_system_e.Handler.{AccessStore, FrameHandlerConfig}
use access_security_system_e.Payload.{JsonLib}
use access_security_system_e.Engine.{DecisionResult, EngineState, denied}
use access_security_system_e.Engine.Decide.{handle_frame_bytes}

-- checkAuth: without a token every request is authorized. A missing header is the empty text.
unfoldable pub check_auth : List ℕ → List ℕ → Bool
unfolding bytes_eq
check_auth token header = if length token == 0 then true else bytes_eq header token

-- requireAuth and the handler behind it: a refusal is the status 401.
unfoldable pub require_auth : {A : Type 0} → List ℕ → List ℕ → A → Option A
unfolding check_auth
require_auth token header answer = if check_auth token header then some answer else none

-- The endpoint /api/decision/frame: the status and the decision.
unfoldable pub decision_endpoint :
    {V : Type 0}
    → JsonLib V
    → Sodium
    → KeyManager
    → FrameHandlerConfig
    → Option AccessStore
    → ℕ
    → EngineState
    → List ℕ
    → EngineState × (ℕ × DecisionResult)
unfolding handle_frame_bytes
decision_endpoint json lib m c store now st body =
    let out = handle_frame_bytes json lib m c store now st body in
    if length body == 0 then (st, (400, denied "empty_frame")) else elim (out.result) [
      | none ↦ (out.state, (500, denied "internal_error"))
      | some r ↦ (out.state, (200, r))
    ]
