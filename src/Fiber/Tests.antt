-- ===== src/Fiber/Tests.antt =====
-- Runs and instances of the Fiber handlers.
use gateway_auth.Prelude.{◌≡◌, refl, [], ◌∷◌, none, some}
use gateway_auth.Text.{Bytes, codes}
use gateway_auth.Identity.{Authenticator, new_disabled, has_any_role, has_role}
use gateway_auth.Text.{same}
use gateway_auth.Text.Space.{trim_space}
use gateway_auth.Text.Split.{split, cut}
use gateway_auth.Source.{default_source, token, header_token}
use gateway_auth.Claims.{identity}
use gateway_auth.Userinfo.{fill, cached_answer, ask}
use gateway_auth.Verifier.{World, as_authenticator, authenticate, parse, display, cookie_value}
use gateway_auth.Fiber.{FiberCtx, Handler, forbidden, require, require_roles}
use gateway_auth.Fiber.Laws.{Verdict, require-Verdict}
use gateway_auth.Fiber.Verified.{Granted, require_roles-Granted}
use gateway_auth.Fixture.{env, ops_env, world, verifier, good}

abbrev request : FiberCtx
request = record { headers = good; locals = []; user_values = [] }

-- A handler that returns no error.
abbrev done : {S : Type 0} → Handler S
done c s = (none, c, s)

-- In local development the roles are not checked.
disabled_run :
    (require_roles (new_disabled {S = World Bytes} none) (codes "ops" ∷ []) done request world).0
    ≡ none
unfolding require_roles new_disabled
disabled_run = refl

abbrev auth : Authenticator (World Bytes)
auth = as_authenticator env verifier

require-Verdict_example :
    Verdict auth done request world
      (some (codes "ops" ∷ []))
      (require_roles auth (codes "ops" ∷ []) done request world)
    × Verdict auth done request world none (require auth done request world)
require-Verdict_example = require-Verdict auth done request world (codes "ops" ∷ [])

abbrev ops_auth : Authenticator (World Bytes)
ops_auth = as_authenticator ops_env verifier

ops_run :
    ((require_roles ops_auth (codes "ops" ∷ []) done request world).0 ≡ none)
    × ((require_roles ops_auth (codes "dev" ∷ []) done request world).0 ≡ some forbidden)
unfolding require_roles as_authenticator authenticate token default_source header_token trim_space
    same parse display cookie_value split cut identity fill cached_answer ask has_any_role has_role
ops_run = (refl, refl)

require_roles-Granted_example :
    Granted ops_env verifier done request world
      (codes "ops" ∷ [])
      (require_roles ops_auth (codes "ops" ∷ []) done request world)
require_roles-Granted_example =
    require_roles-Granted ops_env verifier done request world (codes "ops" ∷ [])
