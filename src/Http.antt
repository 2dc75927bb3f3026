-- ===== src/Http.antt =====
-- Replies of the API: src/contracts/http.ts, the error codes of src/contracts/auth.ts, and the
-- error handler of src/app.ts. A failure is its status code and its error code; messages, field
-- errors, timestamps and the cache headers are left out.
use virexa_backend.Base.{
  ℕ, Bool, true, false, Option, none, some, List, Outcome, ok, throws, ◌>>=◌, ◌>>◌,
}
use virexa_backend.Base.Text.{Text}
use virexa_backend.Auth.{
  AuthError, unauthenticated, forbidden, untrusted_origin, AuthSession, AuthenticatedContext,
  Permission, Request, require_authenticated, require_permission, assert_trusted_origin,
}
use virexa_backend.Audit.{AuditEventInput, record_event}
pub mod Laws
pub mod Concrete

-- what every handler reads of its request
pub record Incoming : Type 0 where
  pub request : Request
  pub request_id : Text
  -- FRONTEND_ORIGIN
  pub configured_origin : Option Text
  -- `authRepository().getSession`
  pub get_session : Text → Option AuthSession

pub data ApiErrorCode : Type 0 where
  validation_error untrusted_request dependency_unavailable not_authenticated : ApiErrorCode
  not_permitted not_found internal_error email_already_registered : ApiErrorCode
  invalid_credentials invalid_state_transition workflow_conflict key_reused : ApiErrorCode
  rate_limited invalid_cursor document_checksum_conflict : ApiErrorCode
  document_external_reference_conflict document_storage_unavailable : ApiErrorCode
  document_upload_conflict document_upload_not_found : ApiErrorCode
  extraction_review_field_not_found extraction_review_conflict : ApiErrorCode
  extraction_completion_invalid_state extraction_completion_conflict : ApiErrorCode

pub record Failure : Type 0 where
  pub status : ℕ
  pub error : ApiErrorCode

pub record Reply (A : Type 0) : Type 0 where
  pub status : ℕ
  pub body : A

abbrev pub fail : {A : Type 0} → ℕ → ApiErrorCode → Outcome Failure A
fail status error = throws (record { status = status; error = error })

-- the error handler, for the errors of the guards
abbrev pub guard_failure : AuthError → Failure
guard_failure unauthenticated = record { status = 401; error = not_authenticated }
guard_failure forbidden = record { status = 403; error = not_permitted }
guard_failure untrusted_origin = record { status = 403; error = untrusted_request }

abbrev pub guarded : {A : Type 0} → Outcome AuthError A → Outcome Failure A
guarded (ok a) = ok a
guarded (throws e) = throws (guard_failure e)

-- a result of `safeParse`
abbrev pub parsed : {A : Type 0} → Option A → Outcome Failure A
parsed none = fail 400 validation_error
parsed (some a) = ok a

abbrev pub found : {A : Type 0} → Option A → Outcome Failure A
found none = fail 404 not_found
found (some a) = ok a

-- `if (!test) return failure`
abbrev pub check : Bool → ℕ → ApiErrorCode → Outcome Failure (Unit {0})
check true status error = ok tt
check false status error = fail status error

-- the guards of a handler that reads, and of one that changes state
unfoldable pub reader : Incoming → Permission → Outcome Failure AuthenticatedContext
reader incoming p = do
  context ← guarded (require_authenticated incoming.get_session incoming.request)
  guarded (require_permission context p)

unfoldable pub writer : Incoming → Permission → Outcome Failure AuthenticatedContext
writer incoming p = do
  guarded (assert_trusted_origin incoming.configured_origin incoming.request)
  context ← guarded (require_authenticated incoming.get_session incoming.request)
  guarded (require_permission context p)

-- the tables of a component, and the audit trail
pub record World (R : Type 0) : Type 0 where
  pub tables : R
  pub audit : List AuditEventInput

-- the reply to a call of the repository: a failure, or one event and the result
unfoldable pub answer :
    {E A R : Type 0}
    → (E → Failure)
    → ℕ
    → (A → AuditEventInput)
    → Outcome E A × R
    → List AuditEventInput
    → Outcome Failure (Reply A) × World R
answer failure status event (throws e, tables) audit =
    (throws (failure e), record { tables = tables; audit = audit })
answer failure status event (ok a, tables) audit = (
  ok (record { status = status; body = a }),
  record { tables = tables; audit = record_event (event a) audit },
)

-- A handler that changes state: its checks, one call of the repository, and the reply.
unfoldable pub mutate :
    {In E A R : Type 0}
    → Outcome Failure In
    → (In → Outcome E A × R)
    → (E → Failure)
    → ℕ
    → (In → A → AuditEventInput)
    → World R
    → Outcome Failure (Reply A) × World R
unfolding answer
mutate checks call failure status event w = elim checks [
  | throws e ↦ (throws e, w)
  | ok input ↦ answer failure status (event input) (call input) w.audit
]
