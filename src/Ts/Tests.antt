-- ===== src/Ts/Tests.antt =====
-- Runs and instances of the TypeScript package.
use gateway_auth.Prelude.{
  ◌⊎◌, ◌++◌, Option, inl, true, ok, ◌≡◌, refl, [], ◌∷◌, none, some, map, if◌then◌else◌, All,
}
use gateway_auth.Text.{Bytes, codes, same}
use gateway_auth.Text.Split.{lower, split, has_prefix, trim_right_byte}
use gateway_auth.Identity as GoIdentity
use gateway_auth.Identity.{str, arr}
use gateway_auth.Claims as GoClaims
use gateway_auth.Source as Go
use gateway_auth.Fiber as Fiber
use gateway_auth.Fiber.{FiberCtx}
use gateway_auth.Ts.Identity as Port
use gateway_auth.Ts.Identity.{
  Values, string, array, nil, cons, Payload, Identity, Authenticator, has_role, has_any_role,
}
use gateway_auth.Ts.Claims.{Options, property, string_claim, claims_mapper, identity_from_claims}
use gateway_auth.Ts.Claims.Conforms.{
  SameClaim, SameToken, SameIdentity, go_mapper, identity_from_claims-identity,
}
use gateway_auth.SignOut as SignOut
use gateway_auth.SignOut.Escape.{unescape, IsInside}
use gateway_auth.Ts.SignOut.{sign_out_url}
use gateway_auth.Ts.SignOut.Conforms.{sign_out_url-conforms}
use gateway_auth.Ts.Adapters.{HeaderValue, one, RequestLike, sent, passed, require_roles}
use gateway_auth.Ts.Adapters.Conforms.{SameResult, reached, require_roles-forbidden}
use gateway_auth.Ts.Strings.{Units, all_small, trim, to_lower_case, or_blank}
use gateway_auth.Ts.Source.{Headers, default_source, split_and_trim}

-- No text of these runs has a letter that is not ASCII.
abbrev unchanged : Units → Units
unchanged s = s

-- The request of the gateway, as the port sees it.
abbrev good_port : Headers
good_port name = if same name (map lower Go.header_access_token) then some (codes "tok") else none

-- The same request, as Go sees it.
abbrev good_go : GoIdentity.Headers
good_go name = or_blank (good_port (map lower name))

abbrev bearer_source : Go.HeaderSource
bearer_source = record { name = Go.header_authorization; scheme = codes "Bearer" }

-- A direct caller.
abbrev direct_port : Headers
direct_port name =
    if same name (map lower Go.header_authorization) then some (codes " bearer abc ") else none

abbrev direct_go : GoIdentity.Headers
direct_go name = or_blank (direct_port (map lower name))

default_source_run : default_source unchanged good_port ≡ some (codes "tok")
unfolding default_source trim to_lower_case same
default_source_run = refl

split_run : split_and_trim (codes " a, ,b ") 44 ≡ codes "a" ∷ codes "b" ∷ []
unfolding split_and_trim trim split
split_run = refl

-- A token whose roles claim is an array with a number in it, as jwx and as jose have it.
abbrev ops_values : Values
ops_values = cons (string (codes "ops")) (cons (Port.other 7) nil)

abbrev ops_payload : Payload
ops_payload = (codes "sub", string (codes "u1")) ∷ (codes "groups", array ops_values) ∷ []

abbrev ops_items : GoIdentity.Anys
ops_items =
    GoIdentity.cons (str (codes "ops")) (GoIdentity.cons (GoIdentity.other 3) GoIdentity.nil)

abbrev ops_claim : Bytes → Option GoIdentity.Any
ops_claim name =
    if same (codes "sub") name
    then some (str (codes "u1"))
    else if same (codes "groups") name
    then some (arr ops_items)
    else none

abbrev ops_token : GoClaims.Token
ops_token = record { subject = some (codes "u1"); field = ops_claim; keys = [] }

abbrev no_options : Options
no_options = record { name_claim = none; email_claim = none; roles_claim = none }

ops-SameToken : SameToken no_options ops_token ops_payload
unfolding string_claim property same SameClaim claims_mapper
ops-SameToken = record { name = tt; email = tt; roles = inl (refl, (tt, tt)); subject = refl }

abbrev go_ops : GoIdentity.Identity
go_ops = GoClaims.identity (go_mapper no_options) ops_token (codes "tok")

abbrev port_ops : Identity
port_ops = identity_from_claims (claims_mapper no_options) ops_payload (codes "tok")

identity_from_claims-identity_example : SameIdentity go_ops port_ops
identity_from_claims-identity_example =
    identity_from_claims-identity no_options ops_token ops_payload (codes "tok") ops-SameToken

-- Two authenticators that accept every request, with that identity.
abbrev go_auth : GoIdentity.Authenticator Unit
go_auth = record { authenticate = λ h s. (ok go_ops, s); enabled = true }

abbrev port_auth : Authenticator Unit
port_auth = record { authenticate = λ h s. (ok port_ops, s); enabled = true }

abbrev go_request : FiberCtx
go_request = record { headers = good_go; locals = []; user_values = [] }

abbrev header_line : Option Units → Option HeaderValue
header_line none = none
header_line (some v) = some (one v)

abbrev port_request : RequestLike
port_request = record { headers = λ name. header_line (good_port name); identity = none }

alike : SameResult (ok go_ops) (ok port_ops)
unfolding SameResult
alike = identity_from_claims-identity_example

require_roles_run :
    require_roles port_auth unchanged (codes "dev" ∷ []) port_request tt
    ≡ (sent 403 (codes "your account holds none of the required roles"), tt)
unfolding require_roles identity_from_claims claims_mapper has_any_role has_role same
require_roles_run = refl

require_roles-forbidden_example :
    ((Fiber.require_roles go_auth [] reached go_request tt).0 ≡ some Fiber.forbidden)
    × ((require_roles port_auth unchanged [] port_request tt).0
        ≡ passed (record port_request { identity = some port_ops }))
require_roles-forbidden_example =
    require_roles-forbidden go_auth port_auth unchanged go_request port_request tt tt go_ops
      port_ops refl refl refl

-- An explicit empty prefix is the root of the host for the port, and the default for Go.
empty_prefix_run :
    (sign_out_url unchanged (some []) none ≡ codes "/sign_out")
    × (SignOut.sign_out_url [] [] ≡ codes "/oauth2/sign_out")
unfolding sign_out_url SignOut.sign_out_url has_prefix trim_right_byte
empty_prefix_run = (refl, refl)

sign_out_url-conforms_example :
    ((codes "/a b" ≡ [])
      × (sign_out_url unchanged none (some (codes "/a b"))
          ≡ SignOut.sign_out_url [] (codes "/a b")))
    ⊎ ((path value go_value : Units) × (sign_out_url unchanged none (some (codes "/a b"))
          ≡ path ++ codes "?rd=" ++ value)
        × (SignOut.sign_out_url [] (codes "/a b") ≡ path ++ codes "?rd=" ++ go_value)
        × All IsInside value
        × All IsInside go_value
        × (unescape value ≡ codes "/a b")
        × (unescape go_value ≡ codes "/a b"))
sign_out_url-conforms_example =
    sign_out_url-conforms unchanged none (some (codes "/a b")) (λ e. cc)
      (all_small (codes "/a b") refl)
