-- ===== src/Huma.antt =====
-- adapters/humamw/humamw.go: the security scheme and the middleware for Huma v2.
pub mod Laws
pub mod Verified
pub mod Scheme
pub mod Tests
use gateway_auth.Prelude.{
  ℕ, ◌++◌, Bool, true, false, ◌&&◌, not, List, [], ◌∷◌, Option, none, some, Result, ok, err,
  if◌then◌else◌, is_empty,
}
use gateway_auth.Text.{Bytes, codes, same}
use gateway_auth.Identity.{
  Identity, Headers, AuthResult, Authenticator, Context, with_identity, has_any_role,
}

-- `SchemeName`.
abbrev pub scheme_name : Bytes
scheme_name = codes "gatewayAuth"

-- A Go map with string keys: a key is written once, and the order is not seen.
abbrev pub Dict : Type 0 → Type 0
Dict V = List (Bytes × V)

unfoldable pub get : {V : Type 0} → Dict V → Bytes → Option V
get [] key = none
get ((k, v) ∷ m) key = if same k key then some v else get m key

unfoldable pub put : {V : Type 0} → Dict V → Bytes → V → Dict V
put [] key v = (key, v) ∷ []
put ((k, w) ∷ m) key v = if same k key then (key, v) ∷ m else (k, w) ∷ put m key v

-- `huma.SecurityScheme`, the fields that the package sets.
pub record SecurityScheme : Type 0 where
  pub type : Bytes
  pub scheme : Bytes
  pub bearer_format : Bytes
  pub description : Bytes

abbrev pub gateway_scheme : SecurityScheme
gateway_scheme = record {
  type = codes "http";
  scheme = codes "bearer";
  bearer_format = codes "JWT";
  description =
      codes
        "Access token forwarded by the gateway (oauth2-proxy) and re-verified against the issuer's JWKS. The scopes of an operation list the roles it requires.";
}

-- `huma.Components`: its security schemes, a map that may be nil, and all else as one value.
pub record Components (X : Type 0) : Type 0 where
  pub security_schemes : Option (Dict SecurityScheme)
  pub others : X

-- A `huma.API` with a type `M` of middlewares: the components of its OpenAPI document, or nil, and
-- the middlewares in the order of their installation. `empty` is the rest of a new `Components`.
pub record Api (X M : Type 0) : Type 0 where
  pub components : Option (Components X)
  pub middlewares : List M

-- `if oapi.Components.SecuritySchemes == nil { ... = map{} }`.
abbrev pub schemes_of : Option (Dict SecurityScheme) → Dict SecurityScheme
schemes_of none = []
schemes_of (some m) = m

-- `if oapi.Components == nil { oapi.Components = &huma.Components{} }`.
abbrev pub components_of : {X : Type 0} → X → Option (Components X) → Components X
components_of empty none = record { security_schemes = none; others = empty }
components_of empty (some c) = c

unfoldable pub register_scheme : {X M : Type 0} → X → Api X M → Api X M
unfolding put
register_scheme empty api =
    let c = components_of empty api.components in
    record api {
      components = some (record c {
        security_schemes = some (put (schemes_of c.security_schemes) scheme_name gateway_scheme);
      });
    }

-- `Register(api, auth)`, where `enforce` is `middleware(api, auth)`.
unfoldable pub register : {X M : Type 0} → X → Api X M → M → Api X M
unfolding register_scheme
register empty api enforce =
    let a = register_scheme empty api in record a { middlewares = a.middlewares ++ enforce ∷ [] }

-- `huma.Operation`: its security requirements, each a map from schemes to scopes.
pub record Operation : Type 0 where
  pub security : List (Dict (List Bytes))

-- One round of the loop of `requiredRoles`.
abbrev pub scopes_or : Option (List Bytes) → Option (List Bytes) → Option (List Bytes)
scopes_or (some scopes) rest = some scopes
scopes_or none rest = rest

first_scopes : List (Dict (List Bytes)) → Option (List Bytes)
unfolding get
first_scopes [] = none
first_scopes (requirement ∷ rest) = scopes_or (get requirement scheme_name) (first_scopes rest)

-- `requiredRoles(op)`; a result `(_, false)` is `none`.
unfoldable pub required_roles : Option Operation → Option (List Bytes)
unfolding first_scopes
required_roles none = none
required_roles (some op) = first_scopes op.security

-- A `huma.Context`: its operation, the headers of its request, and its Go context.
pub record HumaCtx : Type 0 where
  pub operation : Option Operation
  pub headers : Headers
  pub context : Context

-- What `huma.WriteErr` writes.
pub record HttpError : Type 0 where
  pub status : ℕ
  pub message : Bytes

-- What follows a middleware, over the state `S`; `R` is a response that a handler gives.
abbrev pub Next : Type 0 → Type 0 → Type 0
Next S R = HumaCtx → S → Result HttpError R × S

abbrev pub unauthorized : HttpError
unauthorized = record {
  status = 401;
  message = codes "authentication required: reach this service through the gateway";
}

abbrev pub forbidden : HttpError
forbidden = record { status = 403; message = codes "your account holds none of the required roles" }

-- `huma.WithValue(ctx, gatewayauth.ContextKey{}, identity)`.
abbrev pub with_value : HumaCtx → Identity → HumaCtx
with_value ctx i = record ctx { context = with_identity ctx.context i }

module _ {S R : Type 0} (auth : Authenticator S) where
  -- `middleware` behind the call of `Authenticate`.
  abbrev pub admit : List Bytes → Next S R → HumaCtx → AuthResult × S → Result HttpError R × S
  admit roles next ctx (err e, s) = (err unauthorized, s)
  admit roles next ctx (ok i, s) =
      if auth.enabled && not (is_empty roles) && not (has_any_role i roles)
      then (err forbidden, s)
      else next (with_value ctx i) s

  -- `middleware` behind the call of `requiredRoles`.
  abbrev pub enforce : Next S R → HumaCtx → S → Option (List Bytes) → Result HttpError R × S
  enforce next ctx s none = next ctx s
  enforce next ctx s (some roles) = admit roles next ctx (auth.authenticate ctx.headers s)

  -- `middleware(api, auth)`.
  unfoldable pub middleware : Next S R → Next S R
  middleware next ctx s = enforce next ctx s (required_roles ctx.operation)
