-- ===== src/Http/Concrete.antt =====
-- A request of an administrator of organization 4, for the examples.
use virexa_backend.Base.{some, none, if◌then◌else◌}
use virexa_backend.Base.Text.{codes, text_eq}
use virexa_backend.Auth.{admin, role_permissions, AuthSession, AuthenticatedContext}
use virexa_backend.Http.{Incoming}

abbrev session : AuthSession
session = record {
  user = record {
    id = 1;
    email = codes "ada@example.com";
    display_name = codes "Ada";
    role = admin;
    organization_id = 4;
    organization_name = codes "Example";
  };
  expires_at = 90000;
}

abbrev pub context : AuthenticatedContext
context = record { session = session; permissions = role_permissions admin }

abbrev pub posted : Incoming
posted = record {
  request = record {
    method = codes "POST";
    session_cookie = some (codes "token");
    origin = some (codes "https://app.example.com");
  };
  request_id = codes "request-1";
  configured_origin = some (codes "https://app.example.com");
  get_session = λ token. if text_eq token (codes "token") then some session else none;
}
