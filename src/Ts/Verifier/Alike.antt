-- ===== src/Ts/Verifier/Alike.antt =====
-- Two verifiers set up alike, in Go and in the port, and what it is to answer alike.
use gateway_auth.Prelude.{◌*◌, ◌≡◌, ◌++◌, [], some, Result, ok, err, ◌⊎◌, true}
use gateway_auth.Text.{Bytes, codes}
use gateway_auth.Identity as GoIdentity
use gateway_auth.Identity.{is_no_credential, is_invalid_token}
use gateway_auth.Source as GoSource
use gateway_auth.Claims as GoClaims
use gateway_auth.Verifier as Go
use gateway_auth.Ts.Strings.{Units}
use gateway_auth.Ts.Source.{default_source}
use gateway_auth.Ts.Identity.{Identity, Payload, Rejection}
use gateway_auth.Ts.Claims.{Options, claims_mapper}
use gateway_auth.Ts.Claims.Conforms.{SameToken, go_mapper}
use gateway_auth.Ts.Userinfo.Alike.{nanos, SameCache, SameExchange, IsApart}
use gateway_auth.Ts.Adapters.Conforms.{SameResult}
use gateway_auth.Ts.Verifier.{Verifier, World, Env, VerifyOptions}

-- What jwx and jose make of one token: both refuse it, or both accept it, with the same claims where the
-- mapper reads them.
unfoldable pub SameVerdict : Options → Result Bytes GoClaims.Token → Result Units Payload → Type 0
SameVerdict opts (err e) (err u) = Unit
SameVerdict opts (ok t) (ok payload) = SameToken opts t payload
SameVerdict opts _ _ = ⊥

-- The same is asked of jwx and of jose: jose, which has its own keys, always validates.
pub record SameDemands {K : Type 0} (o : Go.ParseOptions K) (q : VerifyOptions) : Type 0 where
  pub validate : o.validate ≡ true
  pub issuer : o.issuer ≡ q.issuer
  pub audience : o.audience ≡ q.audience

-- Two verifiers with one configuration, Go's with no display cookie, and one outside world that they
-- meet: where the same is asked of them, jwx with the keys that Go holds and jose with its own make the
-- same of each token; the endpoint does the same for each call; and the clocks go together.
pub record SameSetup {K : Type 0} (env : Go.Env K) (v : Go.Verifier) (w : Go.World K) (port : Env)
    (u : Verifier) (opts : Options) (lower_other : Units → Units) : Type 0 where
  pub source : v.source ≡ GoSource.default_source
  pub port_source : u.source ≡ default_source lower_other
  pub mapper : v.mapper ≡ go_mapper opts
  pub port_mapper : u.mapper ≡ claims_mapper opts
  pub issuer : v.issuer ≡ u.issuer
  pub audience : v.audience ≡ u.audience
  pub no_cookie : v.display_cookie ≡ []
  pub userinfo : v.userinfo ≡ u.userinfo
  pub now : env.now ≡ nanos * port.now
  pub later : env.later ≡ nanos * port.later
  pub verdicts :
      (raw : Bytes) (o : Go.ParseOptions K) (q : VerifyOptions)
      → o.keys ≡ w.key_set.keys
      → SameDemands o q
      → SameVerdict opts (env.parse_string raw o) (port.jwt_verify raw q)
  pub exchanges :
      (uri raw : Bytes)
      → SameExchange env.decode
          (env.net (record { url = uri; authorization = some (codes "Bearer " ++ raw) }))
          (port.fetch uri (codes "Bearer " ++ raw))

-- The same answer, and caches that are alike behind it.
pub record SameAuth {K : Type 0} (r : GoIdentity.AuthResult × Go.World K)
    (q : Result Rejection Identity × World) : Type 0 where
  pub result : SameResult r.0 q.0
  pub cache : SameCache r.1.cache q.1.cache

-- What can set the two ports apart, for an accepted token of a caller with neither a name nor an email,
-- where there is a userinfo endpoint: a token without a subject, which a body without one fits in Go
-- alone, or a response that the two take differently.
pub record IsUnlike (v : Go.Verifier) (port : Env) (raw : Bytes) (i : GoIdentity.Identity)
    : Type 0 where
  pub nameless : Go.is_nameless i ≡ true
  pub uri : Bytes
  pub endpoint : v.userinfo ≡ some uri
  pub apart : (i.subject ≡ []) ⊎ IsApart (port.fetch uri (codes "Bearer " ++ raw))

-- The two answers are the same, or the request's token is one of those.
pub data Agreement {K : Type 0} (env : Go.Env K) (v : Go.Verifier) (w : Go.World K) (port : Env)
    (h : GoIdentity.Headers) (Same : Type 0) : Type 0 where
  alike : Same → Agreement env v w port h Same
  unlike :
      (raw : Bytes) (t : GoClaims.Token)
      → GoSource.token v.source h ≡ some raw
      → env.parse_string raw (Go.options_for v w.key_set.keys) ≡ ok t
      → IsUnlike v port raw (GoClaims.identity v.mapper t raw)
      → Agreement env v w port h Same
