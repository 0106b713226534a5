-- ===== src/Fixture.antt =====
-- A small provider for the tests: one that declares itself, serves one key and knows one user.
use gateway_auth.Prelude.{
  Bool, true, [], Option, none, some, Result, ok, err, if◌then◌else◌, length, ◌&&◌, ◌∷◌,
}
use gateway_auth.Text.{Bytes, codes, same}
use gateway_auth.Identity.{Identity, Headers, zero_identity, strs}
use gateway_auth.Source.{default_source, header_access_token}
use gateway_auth.Claims.{Token}
use gateway_auth.Http.{Body, answered, failed, Network}
use gateway_auth.KeySet.{Jwk, KeySet}
use gateway_auth.Userinfo.{Answer}
use gateway_auth.Userinfo as Userinfo
use gateway_auth.Discovery as Discovery
use gateway_auth.Verifier.{Verifier, World, Env, ParseOptions}

-- Key sets are texts of keys, one byte each.
abbrev pub jwk : Jwk Bytes
jwk = record { parse = λ b. ok b; len = λ set. length set }

abbrev pub body_of : Bytes → Body
body_of content = record { content = content; broken = none }

abbrev pub issuer : Bytes
issuer = codes "https://idp"

abbrev pub keys_url : Bytes
keys_url = codes "https://idp/keys"

abbrev pub userinfo_url : Bytes
userinfo_url = codes "https://idp/me"

-- The keys URL delivers the set "k"; every other URL answers with an empty body.
abbrev pub provider : Network
provider r =
    if same r.url keys_url then answered 200 (body_of (codes "k")) else answered 200 (body_of [])

-- A network that is down.
abbrev pub down : Network
down r = failed (codes "timeout")

abbrev pub document : Discovery.Decoder
document body = ok (record { issuer = issuer; jwks_uri = keys_url; userinfo_uri = userinfo_url })

abbrev pub about_ada : Answer
about_ada = record { sub = codes "u1"; name = codes "Ada"; email = codes "ada@x" }

abbrev pub decode_ada : Userinfo.Decoder
decode_ada body = ok about_ada

-- The token "tok" is good, for the audience "web"; it has a subject and no other claim to show.
abbrev pub bare_token : Token
bare_token = record { subject = some (codes "u1"); field = λ n. none; keys = [] }

abbrev pub audience_fits : Option Bytes → Bool
audience_fits none = true
audience_fits (some a) = same a (codes "web")

abbrev pub checked : Option Bytes → Bool → Result Bytes Token
checked none fits = err (codes "no keys")
checked (some set) fits = if fits then ok bare_token else err (codes "bad token")

abbrev pub parse_tok : Bytes → ParseOptions Bytes → Result Bytes Token
parse_tok raw o =
    checked o.keys (same raw (codes "tok") && same o.issuer issuer && audience_fits o.audience)

abbrev pub env : Env Bytes
env = record { parse_string = parse_tok; decode = decode_ada; net = provider; now = 5; later = 6 }

abbrev pub served_keys : KeySet Bytes
served_keys = record { url = keys_url; keys = some (codes "k") }

abbrev pub world : World Bytes
world = record { key_set = served_keys; cache = []; log = [] }

abbrev pub verifier : Verifier
verifier = record {
  source = default_source;
  mapper = record { name_claim = []; email_claim = []; roles_claim = [] };
  issuer = issuer;
  audience = [];
  userinfo = some userinfo_url;
  display_cookie = codes "IdToken";
}

-- A request from the gateway with the good token.
abbrev pub good : Headers
good name = if same name header_access_token then codes "tok" else []

-- The identity of the caller before and after the fallback.
abbrev pub nameless_ada : Identity
nameless_ada = record zero_identity { subject = codes "u1"; token = codes "tok" }

abbrev pub ada : Identity
ada = record nameless_ada { name = codes "Ada"; email = codes "ada@x" }

-- A request that did not come through the gateway.
abbrev pub no_token : Headers
no_token name = []

-- The token "tok" with the role "ops" in it.
abbrev pub ops_token : Token
ops_token = record bare_token {
  field = λ n. if same n (codes "groups") then some (strs (codes "ops" ∷ [])) else none;
  keys = codes "groups" ∷ [];
}

abbrev pub ops_env : Env Bytes
ops_env = record env { parse_string = λ raw o. ok ops_token }
