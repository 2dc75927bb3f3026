-- ===== src/Config/Tests.antt =====
-- The theorems on the configuration at a concrete environment.
use virexa_backend.Base.{◌≡◌, refl, none, some, ok, throws, false, Option}
use virexa_backend.Base.Text.{Text, codes, text_eq, trim}
use virexa_backend.Auth.{Request, untrusted_origin, is_safe_method, assert_trusted_origin}
use virexa_backend.Config.{
  Environment, is_production, frontend_origin, trust_proxy_hops, assert_production_configuration,
}
use virexa_backend.Config.Production.{assert_trusted_origin-frontend_origin}
use virexa_backend.Base.{true, ◌↔◌}
use virexa_backend.Base.Text.{is_empty}
use virexa_backend.Config.Production.{Runs, assert_production_configuration_sound}

computed : Unit {0}
unfolding text_eq trim is_safe_method assert_trusted_origin is_production frontend_origin
    trust_proxy_hops assert_production_configuration
computed = tt

-- a space before the origin
abbrev env : Environment
env = record {
  node_env = some (codes "production");
  frontend_origin = some (codes " https://app.example.com");
  trust_proxy_hops = some (codes "2");
}

abbrev request : Request
request = record {
  method = codes "POST";
  session_cookie = none;
  origin = some (codes "https://app.example.com");
}

abbrev url_protocol : Text → Option Text
url_protocol url = some (codes "https:")

assert_production_configuration_test : assert_production_configuration url_protocol env ≡ ok tt
unfolding computed
assert_production_configuration_test = refl

assert_trusted_origin_test :
    assert_trusted_origin env.frontend_origin request ≡ throws untrusted_origin
unfolding computed
assert_trusted_origin_test = refl

unsafe : is_safe_method request.method ≡ false
unfolding computed
unsafe = refl

allowed : frontend_origin env ≡ ok (codes "https://app.example.com")
unfolding computed
allowed = refl

assert_trusted_origin-frontend_origin_example :
    (assert_trusted_origin env.frontend_origin request ≡ ok tt)
    ↔ ((v : Text) × (env.frontend_origin ≡ some v) × (trim v ≡ v) × (is_empty v ≡ false))
assert_trusted_origin-frontend_origin_example =
    assert_trusted_origin-frontend_origin env request (codes "https://app.example.com") unsafe
      allowed refl

live : is_production env ≡ true
unfolding computed
live = refl

assert_production_configuration_sound_example : Runs url_protocol env
assert_production_configuration_sound_example =
    assert_production_configuration_sound url_protocol env live assert_production_configuration_test
