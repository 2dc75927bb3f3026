-- ===== src/Audit.antt =====
-- The audit trail of src/audit/service.ts: an event is one row, and rows are only added.
pub mod Listing
use virexa_backend.Base.{ℕ, Bool, Option, List, ◌∷◌}
use virexa_backend.Base.Text.{Text}

-- the values of the metadata object
pub data Value : Type 0 where
  text : Text → Value
  number : ℕ → Value
  flag : Bool → Value
  identifier : Option ℕ → Value
  texts : List Text → Value

pub record AuditEventInput : Type 0 where
  pub organization_id : ℕ
  pub actor_user_id : Option ℕ
  pub action : Text
  pub resource_type : Text
  pub resource_id : Option ℕ
  pub request_id : Text
  pub metadata : List (Text × Value)

-- `record`
abbrev pub record_event : AuditEventInput → List AuditEventInput → List AuditEventInput
record_event event trail = event ∷ trail
