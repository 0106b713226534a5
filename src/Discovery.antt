-- ===== src/Discovery.antt =====
-- discovery.go: the provider's OpenID configuration.
pub mod Laws
pub mod Tests
use gateway_auth.Prelude.{
  ℕ, ◌++◌, Bool, true, false, not, List, [], ◌∷◌, Option, none, some, Result, ok, err, ◌>>=◌,
  map_err, if◌then◌else◌, ◌==◌, is_empty,
}
use gateway_auth.Text.{Bytes, codes, same}
use gateway_auth.Text.Split.{trim_suffix}
use gateway_auth.Http.{Request, Body, Exchange, not_built, failed, answered, Network, status_ok}

pub record Endpoints : Type 0 where
  pub jwks_uri : Bytes
  pub userinfo_uri : Bytes

-- The three fields of the discovery document.
pub record Document : Type 0 where
  pub issuer : Bytes
  pub jwks_uri : Bytes
  pub userinfo_uri : Bytes

-- `json.NewDecoder(resp.Body).Decode(&document)`.
abbrev pub Decoder : Type 0
Decoder = Body → Result Bytes Document

-- The errors of `discover`.
pub data DiscoveryError : Type 0 where
  build_request : Bytes → DiscoveryError
  fetch : Bytes → DiscoveryError
  unexpected_status : ℕ → DiscoveryError
  decode_document : Bytes → DiscoveryError
  other_issuer : Bytes → DiscoveryError
  no_jwks_uri : DiscoveryError

unfoldable pub well_known : Bytes → Bytes
well_known issuer = trim_suffix issuer b'/' ++ codes "/.well-known/openid-configuration"

-- The two checks on the document.
check_document : Bytes → Document → Result DiscoveryError Endpoints
check_document issuer d =
    if not (same d.issuer issuer)
    then err (other_issuer d.issuer)
    else if is_empty d.jwks_uri
    then err no_jwks_uri
    else ok (record { jwks_uri = d.jwks_uri; userinfo_uri = d.userinfo_uri })

-- `discover` from what `Do` returns.
receive_document : Decoder → Bytes → Exchange → Result DiscoveryError Endpoints
unfolding check_document
receive_document decode issuer (not_built e) = err (build_request e)
receive_document decode issuer (failed e) = err (fetch e)
receive_document decode issuer (answered status body) =
    if status == status_ok
    then (map_err decode_document (decode body) >>= check_document issuer)
    else err (unexpected_status status)

unfoldable pub discover : Decoder → Network → Bytes → Result DiscoveryError Endpoints
unfolding receive_document
discover decode net issuer =
    receive_document decode issuer (net (record { url = well_known issuer; authorization = none }))
