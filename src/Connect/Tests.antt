-- ===== src/Connect/Tests.antt =====
-- Instances of the interceptors.
use gateway_auth.Prelude.{◌≡◌, ◌⊎◌, [], Option, none, ok, err, some, Result, refl}
use gateway_auth.Text.{Bytes, codes}
use gateway_auth.Identity.{Identity, Authenticator, from_context}
use gateway_auth.Verifier.{World, as_authenticator}
use gateway_auth.Connect.{Unary, interceptor, unauthenticated, ConnectError, other_code}
use gateway_auth.Connect.Laws.{interceptor_guards}
use gateway_auth.Fixture.{env, world, verifier, good}

-- A handler that answers with the identity in its context.
abbrev who : Unary (World Bytes) (Option Identity)
who ctx s = (ok (from_context ctx), s)

abbrev answer : Option Identity → World Bytes → Result ConnectError (Option Identity) × World Bytes
answer none s = (err (record { code = other_code (codes "internal"); message = [] }), s)
answer (some i) s = (ok (some i), s)

-- A handler that fails where there is no identity.
abbrev strict : Unary (World Bytes) (Option Identity)
strict ctx s = answer (from_context ctx) s

abbrev auth : Authenticator (World Bytes)
auth = as_authenticator env verifier

interceptor_guards_example :
    (interceptor auth who good [] world ≡ interceptor auth strict good [] world)
    × (((i : Identity) × ((auth.authenticate good world).0 ≡ ok i))
        ⊎ (interceptor auth who good [] world
            ≡ (err unauthenticated, (auth.authenticate good world).1)))
interceptor_guards_example =
    interceptor_guards auth good [] world who strict (λ c t (i, _, e). rw e refl)
