-- ===== src/Ts/Startup.antt =====
-- ts/src/verify.ts: createVerifier, and ts/src/profile.ts.
pub mod Laws
pub mod Tests
use gateway_auth.Prelude.{
  ◌&&◌, not, Bool, true, false, List, [], ◌∷◌, Option, none, some, Result, ok, err, ◌>>=◌, map_err,
  if◌then◌else◌, is_empty,
}
use gateway_auth.Ts.Strings.{Units, or_blank}
use gateway_auth.Ts.Source.{TokenSource, default_source}
use gateway_auth.Ts.Claims.{Options, claims_mapper}
use gateway_auth.Ts.Discovery.{Endpoints, Fetch, DiscoveryError, discover}
use gateway_auth.Ts.Verifier.{Verifier}

-- `CreateVerifierOptions`; `jwks` is whether one is given, and what is left out is `none`.
pub record CreateVerifierOptions : Type 0 where
  pub issuer : Units
  pub audience : Option Units
  pub source : Option TokenSource
  pub claims : Option Options
  pub userinfo_fallback : Bool
  pub jwks : Bool
  pub endpoints : Option (Option Units × Option Units)

-- The key resolver: the one that was given, or a remote key set, which jose fetches when it needs it.
pub data KeyResolver : Type 0 where
  given : KeyResolver
  remote : Units → KeyResolver

pub data StartError : Type 0 where
  issuer_required : StartError
  discovery : DiscoveryError → StartError
  invalid_url : Units → StartError

abbrev pub no_options : Options
no_options = record { name_claim = none; email_claim = none; roles_claim = none }

abbrev pub options_or : Option Options → Options
options_or none = no_options
options_or (some opts) = opts

-- `opts.userinfoFallback && endpoints.userinfoUri`.
abbrev pub fetcher_of : Bool → Units → Option Units
fetcher_of wanted uri = if wanted && not (is_empty uri) then some uri else none

-- `valid` is what `new URL` accepts.
module _ (lower_other : Units → Units) (valid : Units → Bool) (fetch : Fetch) where
  abbrev pub source_or : Option TokenSource → TokenSource
  source_or none = default_source lower_other
  source_or (some source) = source

  -- Where the endpoints are from.
  abbrev pub endpoints_of :
      Units → Bool → Option (Option Units × Option Units) → Result StartError Endpoints
  endpoints_of issuer jwks (some (jwks_uri, userinfo_uri)) =
      ok (record { jwks_uri = or_blank jwks_uri; userinfo_uri = or_blank userinfo_uri })
  endpoints_of issuer true none = ok (record { jwks_uri = []; userinfo_uri = [] })
  endpoints_of issuer false none = map_err discovery (discover fetch issuer)

  -- `opts.jwks ?? createRemoteJWKSet(new URL(endpoints.jwksUri))`.
  abbrev pub keys_of : Bool → Units → Result StartError KeyResolver
  keys_of true uri = ok given
  keys_of false uri = if valid uri then ok (remote uri) else err (invalid_url uri)

  abbrev pub verifier_of : CreateVerifierOptions → Endpoints → Verifier
  verifier_of opts found = record {
    source = source_or opts.source;
    mapper = claims_mapper (options_or opts.claims);
    issuer = opts.issuer;
    audience = or_blank opts.audience;
    userinfo = fetcher_of opts.userinfo_fallback found.userinfo_uri;
  }

  unfoldable pub create_verifier :
      CreateVerifierOptions → Result StartError (Verifier × KeyResolver)
  unfolding discover
  create_verifier opts = if is_empty opts.issuer then err issuer_required else do
    found ← endpoints_of opts.issuer opts.jwks opts.endpoints
    keys ← keys_of opts.jwks found.jwks_uri
    ok (verifier_of opts found, keys)

  -- `oauth2ProxyOIDC(issuer)`, with no more options.
  unfoldable pub oauth2_proxy_oidc : Units → Result StartError (Verifier × KeyResolver)
  unfolding create_verifier
  oauth2_proxy_oidc issuer = create_verifier (record {
    issuer = issuer;
    audience = none;
    source = some (default_source lower_other);
    claims = none;
    userinfo_fallback = true;
    jwks = false;
    endpoints = none;
  })
