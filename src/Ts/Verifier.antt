-- ===== src/Ts/Verifier.antt =====
-- ts/src/verify.ts: the verifying authenticator and header trust.
pub mod Laws
pub mod Trust
pub mod Alike
pub mod Conforms
pub mod Served
pub mod Tests
use gateway_auth.Prelude.{
  ℕ, ◌++◌, Bool, true, false, ◌&&◌, not, List, [], ◌∷◌, Option, none, some, Result, ok, err, map,
  if◌then◌else◌, is_empty,
}
use gateway_auth.Text.{codes}
use gateway_auth.Ts.Strings.{Units, or_blank}
use gateway_auth.Ts.Source.{Headers, TokenSource, user, email, groups, access_token, split_and_trim}
use gateway_auth.Ts.Identity.{
  Identity, Payload, Rejection, no_credential, invalid_token, thrown, Authenticator,
}
use gateway_auth.Ts.Claims.{ClaimsMapper, identity_from_claims}
use gateway_auth.Ts.Userinfo.{Cache, Warning, Fetch, Filled, fill}

-- `class Verifier`; its keys are in what `jwtVerify` stands for. The userinfo fetcher is its URL here.
pub record Verifier : Type 0 where
  pub source : TokenSource
  pub mapper : ClaimsMapper
  pub issuer : Units
  pub audience : Units
  pub userinfo : Option Units

pub record VerifyOptions : Type 0 where
  pub issuer : Units
  pub audience : Option Units

pub data Event : Type 0 where
  token_rejected : Units → Event
  userinfo_warning : Warning → Event

-- The cache of the fetcher, and the log.
pub record World : Type 0 where
  pub cache : Cache
  pub log : List Event

-- What a call meets: jose's `jwtVerify` with the keys, `fetch`, and the clock at the two readings.
pub record Env : Type 0 where
  pub jwt_verify : Units → VerifyOptions → Result Units Payload
  pub fetch : Fetch
  pub now : ℕ
  pub later : ℕ

abbrev pub options : Verifier → VerifyOptions
options v = record {
  issuer = v.issuer;
  audience = if is_empty v.audience then none else some v.audience;
}

abbrev pub is_nameless : Identity → Bool
is_nameless i = is_empty i.name && is_empty i.email

-- What the rest of `authenticate` makes of `fill`: an error of it is not caught.
abbrev pub after_fill : World → Filled → Result Rejection Identity × World
after_fill w f = (
  elim f.result [ ok i ↦ ok i | err e ↦ err (thrown e) ],
  record { cache = f.cache; log = w.log ++ map userinfo_warning f.warnings },
)

module _ (env : Env) (v : Verifier) where
  abbrev pub ask_userinfo :
      Units → Identity → World → Option Units → Result Rejection Identity × World
  ask_userinfo raw i w none = (ok i, w)
  ask_userinfo raw i w (some uri) =
      after_fill w (fill env.fetch env.now env.later uri raw i w.cache)

  -- `authenticate` behind `jwtVerify`.
  unfoldable pub accept : Units → World → Result Units Payload → Result Rejection Identity × World
  unfolding fill
  accept raw w (err e) = (err invalid_token, record w { log = w.log ++ token_rejected e ∷ [] })
  accept raw w (ok payload) =
      let i = identity_from_claims v.mapper payload raw in
      if is_nameless i then ask_userinfo raw i w v.userinfo else (ok i, w)

  -- `authenticate` behind the call of the source.
  unfoldable pub check : World → Option Units → Result Rejection Identity × World
  unfolding accept
  check w none = (err no_credential, w)
  check w (some raw) = accept raw w (env.jwt_verify raw (options v))

  unfoldable pub authenticate : Headers → World → Result Rejection Identity × World
  unfolding check
  authenticate headers w = check w (v.source headers)

  unfoldable pub verifier : Authenticator World
  unfolding authenticate
  verifier = record { authenticate = authenticate; enabled = true }

-- `headerTrust()`, the answer to one request.
unfoldable pub trust_headers : Headers → Result Rejection Identity
unfolding split_and_trim
trust_headers headers =
    let subject = or_blank (headers user) in
    let mail = or_blank (headers email) in
    if is_empty subject && is_empty mail
    then err no_credential
    else ok (record {
      subject = subject;
      name = if not (is_empty subject) then subject else mail;
      email = mail;
      roles = split_and_trim (or_blank (headers groups)) b',';
      token = or_blank (headers access_token);
      claims = [];
    })

unfoldable pub header_trust : {S : Type 0} → Authenticator S
unfolding trust_headers
header_trust = record { authenticate = λ headers s. (trust_headers headers, s); enabled = true }
