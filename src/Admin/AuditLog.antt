-- ===== src/Admin/AuditLog.antt =====
-- access_admin/src/service/audit_service.cpp, on the audit tables of the store's database.
use access_security_system_e.Common.{ℕ, Bool, not, ◌>>=◌, Option, some, [], if◌then◌else◌}
use access_security_system_e.Crypto.{Sodium}
use access_security_system_e.KeyManager.{KeyManager, derive_audit_hmac_key}
use access_security_system_e.Audit.{AuditDb, verify_audit_chain}
use access_security_system_e.Audit.Page.{audit_page}
use access_security_system_e.Store.{AccessDb}
use access_security_system_e.Admin.{App, ServiceResult, ok_result, error_result, verdict, audit}

module _ {S : Type 0} (access : AccessDb S) (log : AuditDb S) where
  -- `prepared` is whether the statement could be prepared.
  unfoldable pub list_audit_log : Bool → App S → ℕ → ℕ → ServiceResult
  unfolding audit_page
  list_audit_log prepared app limit offset =
      if not prepared
      then error_result "prepare failed" 500
      else if access.readable app.db
      then ok_result (audit (audit_page limit offset (log.rows app.db)))
      else ok_result (audit [])

  unfoldable pub verify_audit_log : Sodium → KeyManager → App S → Option ServiceResult
  unfolding verify_audit_chain
  verify_audit_log lib m app = do
    key ← derive_audit_hmac_key lib m
    some (ok_result (verdict (verify_audit_chain lib key log app.db)))
