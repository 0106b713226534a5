-- ===== src/Profile.antt =====
-- profile.go: building a verifier at startup.
pub mod Startup
pub mod Service
pub mod Tests
use gateway_auth.Prelude.{
  Bool, true, false, ◌&&◌, not, List, [], Option, none, some, Result, ok, err, ◌>>=◌, map_err,
  if◌then◌else◌, is_empty,
}
use gateway_auth.Text.{Bytes}
use gateway_auth.Source.{TokenSource, default_source}
use gateway_auth.Claims.{ClaimsMapper}
use gateway_auth.Http.{Network}
use gateway_auth.KeySet.{Jwk, RefreshError, new_key_set}
use gateway_auth.Discovery.{Endpoints, Decoder, DiscoveryError, discover}
use gateway_auth.Verifier.{Verifier, World}

-- `Config`, without the logger.
pub record Config : Type 0 where
  pub issuer : Bytes
  pub audience : Bytes
  pub source : Option TokenSource
  pub claims : ClaimsMapper
  pub userinfo_fallback : Bool
  pub display_cookie : Bytes

-- The errors of `NewVerifier`.
pub data StartError : Type 0 where
  issuer_required : StartError
  discovery : DiscoveryError → StartError
  keys : RefreshError → StartError

-- `if source == nil { source = DefaultSource() }`.
abbrev pub source_of : Option TokenSource → TokenSource
source_of none = default_source
source_of (some s) = s

-- `if cfg.UserinfoFallback && found.UserinfoURI != ""`.
abbrev pub fetcher_of : Bool → Bytes → Option Bytes
fetcher_of wanted uri = if wanted && not (is_empty uri) then some uri else none

unfoldable pub verifier_of : Config → Endpoints → Verifier
verifier_of cfg found = record {
  source = source_of cfg.source;
  mapper = cfg.claims;
  issuer = cfg.issuer;
  audience = cfg.audience;
  userinfo = fetcher_of cfg.userinfo_fallback found.userinfo_uri;
  display_cookie = cfg.display_cookie;
}

module _ {K : Type 0} (jwk : Jwk K) (decode : Decoder) where
  -- `NewVerifier` behind the check of the issuer: the network at the discovery, and at the first fetch of
  -- the keys.
  connect : Network → Network → Config → Result StartError (Verifier × World K)
  unfolding verifier_of
  connect net keys_net cfg = do
    found ← map_err discovery (discover decode net cfg.issuer)
    ks ← map_err keys (new_key_set jwk keys_net found.jwks_uri)
    ok (verifier_of cfg found, record { key_set = ks; cache = []; log = [] })

  -- `NewVerifier`.
  unfoldable pub new_verifier : Network → Network → Config → Result StartError (Verifier × World K)
  unfolding connect
  new_verifier net keys_net cfg =
      if is_empty cfg.issuer then err issuer_required else connect net keys_net cfg

  -- `OAuth2ProxyOIDC`.
  unfoldable pub oauth2_proxy_oidc :
      Network → Network → Bytes → Result StartError (Verifier × World K)
  unfolding new_verifier
  oauth2_proxy_oidc net keys_net issuer = new_verifier net keys_net (record {
    issuer = issuer;
    audience = [];
    source = some default_source;
    claims = record { name_claim = []; email_claim = []; roles_claim = [] };
    userinfo_fallback = true;
    display_cookie = [];
  })
