-- ===== src/Ts/Verifier/Tests.antt =====
-- Runs and instances of the port's authenticators.
use gateway_auth.Prelude.{◌*◌, Option, ◌≡◌, refl, [], ◌∷◌, none, some, ok, err, map, if◌then◌else◌}
use gateway_auth.Text.{codes, same}
use gateway_auth.Text.Split.{lower}
use gateway_auth.Identity as GoIdentity
use gateway_auth.Source as GoSource
use gateway_auth.Claims as GoClaims
use gateway_auth.Verifier as Go
use gateway_auth.Http as Http
use gateway_auth.Ts.Claims.Conforms.{go_mapper}
use gateway_auth.Ts.Userinfo.Alike.{nanos}
use gateway_auth.Trust as GoTrust
use gateway_auth.Ts.Strings.{Units, or_blank, all_small, trim}
use gateway_auth.Ts.Source.{Headers, access_token, user, groups, default_source}
use gateway_auth.Ts.Identity.{Payload, string, thrown}
use gateway_auth.Ts.Claims.{Options, claims_mapper, identity_from_claims}
use gateway_auth.Ts.Userinfo.{answered, null, members, fill, get}
use gateway_auth.Ts.Adapters.Conforms.{SameResult}
use gateway_auth.Ts.Verifier.{Verifier, World, Env, authenticate, trust_headers}
use gateway_auth.Ts.Verifier as Port
use gateway_auth.Fiber as Fiber
use gateway_auth.Ts.Adapters.{HeaderValue, one, RequestLike, from_node_headers}
use gateway_auth.Ts.Verifier.Laws.{Resolution, authenticate-Resolution, authenticate-thrown}
use gateway_auth.Ts.Verifier.Trust.{trust_headers-SameResult}

abbrev unchanged : Units → Units
unchanged s = s

abbrev fronted : Headers
fronted name = if same name access_token then some (codes "tok") else none

abbrev bare_payload : Payload
bare_payload = (codes "sub", string (codes "u1")) ∷ []

abbrev no_options : Options
no_options = record { name_claim = none; email_claim = none; roles_claim = none }

abbrev verifier : Verifier
verifier = record {
  source = default_source unchanged;
  mapper = claims_mapper no_options;
  issuer = codes "https://idp";
  audience = [];
  userinfo = some (codes "https://idp/me");
}

abbrev world : World
world = record { cache = []; log = [] }

-- jose accepts each token; the endpoint knows Ada, or answers `null`.
abbrev ada_env : Env
ada_env = record {
  jwt_verify = λ raw o. ok bare_payload;
  fetch = λ uri auth.
      answered 200 (
        ok (members (record { sub = some (codes "u1"); name = some (codes "Ada"); email = none })));
  now = 5;
  later = 6;
}

abbrev null_env : Env
null_env = record ada_env { fetch = λ uri auth. answered 200 (ok null) }

ada_run :
    (authenticate ada_env verifier fronted world).0
    ≡ ok (record {
      subject = codes "u1";
      name = codes "Ada";
      email = [];
      roles = [];
      token = codes "tok";
      claims = bare_payload;
    })
unfolding authenticate fill identity_from_claims claims_mapper default_source trim same
ada_run = refl

authenticate-Resolution_example :
    Resolution ada_env verifier fronted world (authenticate ada_env verifier fronted world).0
authenticate-Resolution_example = authenticate-Resolution ada_env verifier fronted world

reads_tok : verifier.source fronted ≡ some (codes "tok")
unfolding default_source trim same
reads_tok = refl

authenticate-thrown_example :
    (authenticate null_env verifier fronted world).0 ≡ err (thrown (codes "TypeError"))
unfolding identity_from_claims claims_mapper get same
authenticate-thrown_example =
    authenticate-thrown null_env verifier fronted world (codes "tok") (codes "https://idp/me")
      bare_payload 200 reads_tok refl refl refl refl refl refl

abbrev proxied : Headers
proxied name =
    if same name user
    then some (codes "u1")
    else if same name groups
    then some (codes "ops, dev")
    else none

abbrev go_proxied : GoIdentity.Headers
go_proxied name = or_blank (proxied (map lower name))

trust_headers-SameResult_example :
    SameResult (GoTrust.trust_headers go_proxied) (trust_headers proxied)
unfolding same
trust_headers-SameResult_example =
    trust_headers-SameResult go_proxied proxied (λ name. refl)
      (all_small (go_proxied GoSource.header_groups) refl)

-- jwx has the token that jose has in `ada_env`; its subject is a string, and it has no other claim.
abbrev bare_claim : Units → Option GoIdentity.Any
bare_claim name = if same (codes "sub") name then some (GoIdentity.str (codes "u1")) else none

abbrev go_token : GoClaims.Token
go_token = record { subject = some (codes "u1"); field = bare_claim; keys = [] }

-- The endpoint of `ada_env`, and its clock.
abbrev go_env : Go.Env Units
go_env = record {
  parse_string = λ raw o. ok go_token;
  decode = λ b. ok (record { sub = codes "u1"; name = codes "Ada"; email = [] });
  net = λ r. Http.answered 200 (record { content = []; broken = none });
  now = nanos * 5;
  later = nanos * 6;
}

abbrev go_verifier : Go.Verifier
go_verifier = record {
  source = GoSource.default_source;
  mapper = go_mapper no_options;
  issuer = codes "https://idp";
  audience = [];
  userinfo = some (codes "https://idp/me");
  display_cookie = [];
}

abbrev go_world : Go.World Units
go_world = record {
  key_set = record { url = codes "https://idp/keys"; keys = some (codes "k") };
  cache = [];
  log = [];
}

abbrev go_fronted : GoIdentity.Headers
go_fronted name = or_blank (fronted (map lower name))

-- The request as an express handler and as a Fiber handler have it.
abbrev header_line : Option Units → Option HeaderValue
header_line none = none
header_line (some v) = some (one v)

abbrev port_request : RequestLike
port_request = record { headers = λ name. header_line (fronted name); identity = none }

abbrev seen_headers : GoIdentity.Headers
seen_headers name = or_blank (from_node_headers unchanged port_request.headers (map lower name))

abbrev go_request : Fiber.FiberCtx
go_request = record { headers = seen_headers; locals = []; user_values = [] }
