-- ===== src/Verifier.antt =====
-- verify.go: the verifier of the forwarded access token.
pub mod Cookie
pub mod Outcome
pub mod Display
pub mod State
pub mod Overlap
pub mod Locks
pub mod Granted
pub mod Contract
pub mod Tests
use gateway_auth.Prelude.{
  ℕ, ◌++◌, Bool, true, false, ◌&&◌, List, [], ◌∷◌, Option, none, some, Result, ok, err, map,
  if◌then◌else◌, is_empty,
}
use gateway_auth.Text.{Bytes, codes, same}
use gateway_auth.Text.Space.{trim_space}
use gateway_auth.Text.Split.{split, cut}
use gateway_auth.Identity.{
  Identity, Headers, AuthError, no_credential, invalid_token, AuthResult, Authenticator,
}
use gateway_auth.Source.{TokenSource, token}
use gateway_auth.Claims.{Token, ClaimsMapper, or_empty, string_claim, identity}
use gateway_auth.Http.{Network}
use gateway_auth.KeySet.{KeySet, RefreshError}
use gateway_auth.Userinfo.{Cache, Decoder, Warning, Filled, fill}

-- `verifier`; its key set and the cache of its userinfo fetcher are in `World`. `userinfo` is the
-- endpoint of the fetcher, or nil.
pub record Verifier : Type 0 where
  pub source : TokenSource
  pub mapper : ClaimsMapper
  pub issuer : Bytes
  pub audience : Bytes
  pub userinfo : Option Bytes
  pub display_cookie : Bytes

-- The options of `jwt.ParseString`.
pub record ParseOptions (K : Type 0) : Type 0 where
  pub keys : Option K
  pub validate : Bool
  pub issuer : Bytes
  pub audience : Option Bytes

-- What goes to the log.
pub data Event : Type 0 where
  token_rejected : Bytes → Event
  cookie_rejected : Bytes → Event
  userinfo_warning : Warning → Event
  refresh_failed : RefreshError → Event

-- The state that calls share.
pub record World (K : Type 0) : Type 0 where
  pub key_set : KeySet K
  pub cache : Cache
  pub log : List Event

-- What one call meets outside the package: `jwt.ParseString` at its time, the network, the decoder
-- of encoding/json, and the clock where `fill` reads it.
pub record Env (K : Type 0) : Type 0 where
  pub parse_string : Bytes → ParseOptions K → Result Bytes Token
  pub decode : Decoder
  pub net : Network
  pub now : ℕ
  pub later : ℕ

-- One round of the loop of `cookieValue`.
abbrev match_cookie : Bytes → Option (Bytes × Bytes) → Bytes → Bytes
match_cookie name none rest = rest
match_cookie name (some (k, val)) rest = if same k name then val else rest

find_cookie : Bytes → List Bytes → Bytes
find_cookie name [] = []
find_cookie name (part ∷ parts) =
    match_cookie name (cut (trim_space part) b'=') (find_cookie name parts)

unfoldable pub cookie_value : Bytes → Bytes → Bytes
unfolding find_cookie
cookie_value header name = find_cookie name (split header b';')

abbrev pub header_cookie : Bytes
header_cookie = codes "Cookie"

-- `identity.Name == "" && identity.Email == ""`.
abbrev pub is_nameless : Identity → Bool
is_nameless i = is_empty i.name && is_empty i.email

-- The options that `parse` passes: an audience only where one is configured.
abbrev pub options_for : {K : Type 0} → Verifier → Option K → ParseOptions K
options_for v keys = record {
  keys = keys;
  validate = true;
  issuer = v.issuer;
  audience = if is_empty v.audience then none else some v.audience;
}

module _ {K : Type 0} (env : Env K) (v : Verifier) where
  unfoldable pub options : World K → ParseOptions K
  options w = options_for v w.key_set.keys

  unfoldable pub parse : World K → Bytes → Result Bytes Token
  unfolding options
  parse w raw = env.parse_string raw (options w)

  -- `fillFromDisplayCookie` behind the call of `parse`.
  abbrev pub use_cookie : Identity → World K → Result Bytes Token → Identity × World K
  use_cookie i w (err e) = (i, record w { log = w.log ++ cookie_rejected e ∷ [] })
  use_cookie i w (ok t) = (
    if same (or_empty t.subject) i.subject
        then record i {
          name = string_claim t (codes "name");
          email = string_claim t (codes "email");
        }
        else i,
    w,
  )

  unfoldable pub fill_from_display_cookie : Headers → Identity → World K → Identity × World K
  fill_from_display_cookie h i w =
      let raw = cookie_value (h header_cookie) v.display_cookie in
      if is_empty v.display_cookie
      then (i, w)
      else if is_empty raw
      then (i, w)
      else use_cookie i w (parse w raw)

  -- `v.userinfo.fill(ctx, raw, &identity)`, where there is a fetcher.
  abbrev pub fill_from : Option Bytes → Bytes → Identity → World K → Identity × World K
  fill_from none raw i w = (i, w)
  fill_from (some uri) raw i w =
      let f = fill env.decode env.net env.now env.later uri raw i w.cache in
      (f.filled, record w { cache = f.cache; log = w.log ++ map userinfo_warning f.warnings })

  -- The first of the two fallbacks of `Authenticate`.
  unfoldable pub from_cookie : Headers → Identity → World K → Identity × World K
  unfolding fill_from_display_cookie
  from_cookie h i w = if is_nameless i then fill_from_display_cookie h i w else (i, w)

  -- The second.
  unfoldable pub from_userinfo : Bytes → Identity → World K → Identity × World K
  from_userinfo raw i w = if is_nameless i then fill_from v.userinfo raw i w else (i, w)

  unfoldable pub display : Headers → Bytes → Identity → World K → Identity × World K
  unfolding from_cookie from_userinfo
  display h raw i w = let (i', w') = from_cookie h i w in from_userinfo raw i' w'

  -- `Authenticate` behind the call of `parse`.
  abbrev pub accept : Headers → Bytes → World K → Result Bytes Token → AuthResult × World K
  accept h raw w (err e) = (err invalid_token, record w { log = w.log ++ token_rejected e ∷ [] })
  accept h raw w (ok t) = let (i, w') = display h raw (identity v.mapper t raw) w in (ok i, w')

  -- `Authenticate` behind the call of `source.Token`.
  abbrev pub check : Headers → World K → Option Bytes → AuthResult × World K
  check h w none = (err no_credential, w)
  check h w (some raw) = accept h raw w (parse w raw)

  unfoldable pub authenticate : Headers → World K → AuthResult × World K
  authenticate h w = check h w (token v.source h)

  unfoldable pub as_authenticator : Authenticator (World K)
  as_authenticator = record { authenticate = authenticate; enabled = true }
