-- ===== src/Ts/Discovery.antt =====
-- ts/src/discovery.ts: the provider's OpenID configuration.
pub mod Laws
use gateway_auth.Prelude.{
  ℕ, ◌++◌, Bool, true, false, not, List, [], ◌∷◌, Option, none, some, Result, ok, err,
  if◌then◌else◌, is_empty,
}
use gateway_auth.Text.{codes, same}
use gateway_auth.Text.Split.{trim_suffix}
use gateway_auth.Ts.Strings.{Units, or_blank}
use gateway_auth.Ts.Userinfo.{is_ok}

pub record Endpoints : Type 0 where
  pub jwks_uri : Units
  pub userinfo_uri : Units

-- The members that the cast names, a string each; `none` is one that is absent or null.
pub record Document : Type 0 where
  pub issuer : Option Units
  pub jwks_uri : Option Units
  pub userinfo_endpoint : Option Units

-- What `response.json()` gives.
pub data Reply : Type 0 where
  null : Reply
  document : Document → Reply

pub data Response : Type 0 where
  failed : Units → Response
  answered : ℕ → Result Units Reply → Response

-- `fetchImpl(url)`.
abbrev pub Fetch : Type 0
Fetch = Units → Response

-- What `discover` rejects with.
pub data DiscoveryError : Type 0 where
  fetch_failed : Units → DiscoveryError
  unexpected_status : ℕ → DiscoveryError
  undecodable : Units → DiscoveryError
  null_document : DiscoveryError
  other_issuer : Option Units → DiscoveryError
  no_jwks_uri : DiscoveryError

-- `replace(/\/$/, "")` takes one slash off the end.
unfoldable pub well_known : Units → Units
well_known issuer = trim_suffix issuer b'/' ++ codes "/.well-known/openid-configuration"

-- `document.issuer === issuer`.
abbrev pub declares : Option Units → Units → Bool
declares none issuer = false
declares (some declared) issuer = same declared issuer

unfoldable pub check_document : Units → Document → Result DiscoveryError Endpoints
check_document issuer d =
    if not (declares d.issuer issuer)
    then err (other_issuer d.issuer)
    else if is_empty (or_blank d.jwks_uri)
    then err no_jwks_uri
    else ok (record { jwks_uri = or_blank d.jwks_uri; userinfo_uri = or_blank d.userinfo_endpoint })

unfoldable pub read_reply : Units → Result Units Reply → Result DiscoveryError Endpoints
unfolding check_document
read_reply issuer (err e) = err (undecodable e)
read_reply issuer (ok null) = err null_document
read_reply issuer (ok (document d)) = check_document issuer d

unfoldable pub receive : Units → Response → Result DiscoveryError Endpoints
unfolding read_reply
receive issuer (failed e) = err (fetch_failed e)
receive issuer (answered status reply) =
    if is_ok status then read_reply issuer reply else err (unexpected_status status)

unfoldable pub discover : Fetch → Units → Result DiscoveryError Endpoints
unfolding receive
discover fetch issuer = receive issuer (fetch (well_known issuer))
