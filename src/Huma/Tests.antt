-- ===== src/Huma/Tests.antt =====
-- Runs and instances of the Huma middleware.
use gateway_auth.Prelude.{ℕ, ◌≡◌, refl, [], ◌∷◌, Option, none, some, ok}
use gateway_auth.Text.{Bytes, codes, same}
use gateway_auth.Identity.{Identity, Authenticator, from_context}
use gateway_auth.Verifier.{World, as_authenticator}
use gateway_auth.Huma.{Operation, HumaCtx, Next, Api, scheme_name, required_roles, middleware}
use gateway_auth.Huma.Laws.{Verdict, middleware-Verdict}
use gateway_auth.Huma.Verified.{Granted, middleware-Granted}
use gateway_auth.Fixture.{env, ops_env, world, verifier, good}

abbrev other_scheme : Bytes
other_scheme = codes "apiKey"

abbrev operation : Operation
operation = record {
  security = ((other_scheme, []) ∷ []) ∷ ((scheme_name, codes "ops" ∷ []) ∷ []) ∷ [];
}

required_roles_run :
    (required_roles (some operation) ≡ some (codes "ops" ∷ []))
    × (required_roles (some (record { security = [] })) ≡ none)
unfolding required_roles same
required_roles_run = (refl, refl)

abbrev request : HumaCtx
request = record { operation = some operation; headers = good; context = [] }

-- A handler that answers with the identity in its context.
abbrev who : Next (World Bytes) (Option Identity)
who ctx s = (ok (from_context ctx.context), s)

abbrev auth : Authenticator (World Bytes)
auth = as_authenticator env verifier

middleware-Verdict_example : Verdict auth who request world (middleware auth who request world)
middleware-Verdict_example = middleware-Verdict auth who request world

-- An API with no components yet, and one middleware.
abbrev api : Api ℕ Bytes
api = record { components = none; middlewares = codes "logging" ∷ [] }

abbrev ops_auth : Authenticator (World Bytes)
ops_auth = as_authenticator ops_env verifier

middleware-Granted_example :
    Granted ops_env verifier who request world
      (codes "ops" ∷ [])
      (middleware ops_auth who request world)
middleware-Granted_example =
    middleware-Granted ops_env verifier who request world (codes "ops" ∷ []) required_roles_run.0
      (λ e. cc)
