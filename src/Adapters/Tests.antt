-- ===== src/Adapters/Tests.antt =====
-- Instances: a service that fails where it finds no caller.
use gateway_auth.Prelude.{ℕ, refl, [], ◌∷◌, none, some}
use gateway_auth.Text.{Bytes, codes, same}
use gateway_auth.Identity.{Authenticator}
use gateway_auth.Verifier.{World, as_authenticator}
use gateway_auth.Fiber.{FiberCtx, require}
use gateway_auth.Huma.{HumaCtx, scheme_name, required_roles, middleware}
use gateway_auth.Connect.{interceptor}
use gateway_auth.Adapters.{
  Service, asking, fiber_handler, huma_handler, connect_handler, fiber_told, huma_told,
  connect_told,
}
use gateway_auth.Adapters.Agree.{advice, Fate, adapters_agree}
use gateway_auth.Huma.Laws.{Requires, required_roles-Requires}
use gateway_auth.Adapters.Interface.{implementations-IsAuthenticator, Reply, require-Reply}
use gateway_auth.Fixture.{ops_env, world, verifier, good}

abbrev known : Service (World Bytes)
known none w = (some (codes "no caller"), w)
known (some i) w = (none, w)

abbrev ops_auth : Authenticator (World Bytes)
ops_auth = as_authenticator ops_env verifier

abbrev fiber_request : FiberCtx
fiber_request = record { headers = good; locals = []; user_values = [] }

abbrev huma_request : HumaCtx
huma_request = record {
  operation = some (record { security = ((scheme_name, codes "ops" ∷ []) ∷ []) ∷ [] });
  headers = good;
  context = [];
}

ops_required : Requires huma_request.operation (codes "ops" ∷ [])
unfolding required_roles same
ops_required = (required_roles-Requires huma_request.operation (codes "ops" ∷ [])).0 refl

adapters_agree_example :
    Fate ops_auth known
      (codes "ops" ∷ [])
      (ops_auth.authenticate good world)
      advice
      (fiber_told (asking ops_auth (codes "ops" ∷ []) (fiber_handler known) fiber_request world))
      (huma_told (middleware ops_auth (huma_handler known) huma_request world))
    × Fate ops_auth known []
        (ops_auth.authenticate good world)
        (codes "authentication required")
        (fiber_told (require ops_auth (fiber_handler known) fiber_request world))
        (connect_told (interceptor ops_auth (connect_handler known) good [] world))
adapters_agree_example =
    adapters_agree ops_auth known fiber_request huma_request [] world (codes "ops" ∷ []) refl
      ops_required

require-Reply_example :
    Reply ops_auth
      (fiber_handler known)
      fiber_request
      world
      (require ops_auth (fiber_handler known) fiber_request world)
require-Reply_example =
    require-Reply ops_auth (fiber_handler known) fiber_request world
      (implementations-IsAuthenticator {S = ℕ} ops_env verifier none).0
