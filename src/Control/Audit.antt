-- ===== src/Control/Audit.antt =====
-- `LogAudit` of backend/internal/control/store.go.
use podman_manager.Prelude.{
  String, Bool, false, ◌||◌, List, [], ◌∷◌, ◌++◌, ok, err, ◌==◌, if◌then◌else◌,
}
use podman_manager.Control.{
  AuditRow, Database, Environment, audit_incomplete, driver_failed, insert_audit,
}
use podman_manager.Control.Links.{Outcome}

-- `D` is the type of the details, `map[string]any`
pub record AuditEvent (D : Type 0) : Type 0 where
  pub id : String
  pub actor : String
  pub action : String
  pub resource : String
  pub resource_id : String
  pub details : D

unfoldable pub audit_row : {D : Type 0} → String → AuditEvent D → AuditRow
audit_row fresh event = record {
  id = if event.id == "" then fresh else event.id;
  actor = event.actor;
  action = event.action;
  resource = event.resource;
  resource_id = event.resource_id;
  details = "{}";
}

unfoldable pub has_audit : String → List AuditRow → Bool
has_audit id [] = false
has_audit id (a ∷ rows) = a.id == id || has_audit id rows

unfoldable pub log_audit :
    {D : Type 0} → Environment → String → AuditEvent D → Database → Outcome (Unit {0})
unfolding audit_row has_audit
log_audit env fresh event db =
    let row = audit_row fresh event in
    if event.action == "" || event.resource == ""
    then (err audit_incomplete, db)
    else (if env.fault insert_audit || has_audit row.id db.audits
        then (err (driver_failed insert_audit), db)
        else (ok tt, record db { audits = db.audits ++ (row ∷ []) }))
