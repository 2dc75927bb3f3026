-- ===== src/Config.antt =====
-- The configuration that the server reads from its environment: src/config/runtime.ts.
-- `new URL(text).protocol` is a parameter.
pub mod Production
mod Tests
use virexa_backend.Base.{
  ℕ, zero, suc, ◌+◌, ◌*◌, ◌-◌, Bool, true, false, ◌&&◌, not, Option, none, some, [], ◌∷◌, ◌==◌, leb,
  if◌then◌else◌, Outcome, ok, throws, ◌>>=◌, ◌>>◌, require,
}
use virexa_backend.Base.Text.{Text, codes, text_eq, trim, present}
use mathlib.Core.Option

-- the variables that are read
pub record Environment : Type 0 where
  pub node_env : Option Text
  pub frontend_origin : Option Text
  pub trust_proxy_hops : Option Text

-- INVALID_CONFIGURATION, by its message
pub data InvalidConfiguration : Type 0 where
  origin_missing hops_not_number hops_too_many origin_not_url origin_not_https :
      InvalidConfiguration

abbrev pub local_frontend_origin : Text
local_frontend_origin = codes "http://localhost:3000"

unfoldable pub is_production : Environment → Bool
unfolding text_eq
is_production env = elim env.node_env [ none ↦ false | some e ↦ text_eq e (codes "production") ]

unfoldable pub frontend_origin : Environment → Outcome InvalidConfiguration Text
unfolding is_production
frontend_origin env = elim (present (Option.map trim env.frontend_origin)) [
  | some origin ↦ ok origin
  | none ↦ if is_production env then throws origin_missing else ok local_frontend_origin
]

-- /^\d+$/
unfoldable pub all_digits : Text → Bool
all_digits [] = true
all_digits (c ∷ s) = leb 48 c && leb c 57 && all_digits s

-- `Number` of decimal digits, with the number that the digits before them make. The source's number
-- is rounded where it is not a safe integer, which is refused in both: it is more than 10.
unfoldable pub digits_value : ℕ → Text → ℕ
digits_value n [] = n
digits_value n (c ∷ s) = digits_value (10 * n + (c - 48)) s

unfoldable pub trust_proxy_hops : Environment → Outcome InvalidConfiguration ℕ
unfolding all_digits digits_value
trust_proxy_hops env = elim (present (Option.map trim env.trust_proxy_hops)) [
  | none ↦ ok 0
  | some configured ↦ do
    require (all_digits configured) hops_not_number
    require (leb (digits_value 0 configured) 10) hops_too_many
    ok (digits_value 0 configured)
]

unfoldable pub check_origin : Option Text → Outcome InvalidConfiguration (Unit {0})
check_origin none = throws origin_not_url
check_origin (some protocol) = require (text_eq protocol (codes "https:")) origin_not_https

unfoldable pub assert_production_configuration :
    (Text → Option Text) → Environment → Outcome InvalidConfiguration (Unit {0})
unfolding check_origin
assert_production_configuration url_protocol env = if not (is_production env) then ok tt else do
  origin ← frontend_origin env
  check_origin (url_protocol origin)
  trust_proxy_hops env >> ok tt
