-- ===== src/Profile/Tests.antt =====
-- Runs and instances of the startup.
use gateway_auth.Prelude.{
  ◌≡◌, refl, true, [], Option, none, ok, err, List, ◌∷◌, ◌++◌, subst, sym, Any, inl,
}
use gateway_auth.Text.{Bytes, codes, same}
use gateway_auth.Text.Split.{trim_suffix, split, cut}
use gateway_auth.Source.{default_source, token, header_token}
use gateway_auth.Claims.{identity}
use gateway_auth.Http.{read_limited}
use gateway_auth.KeySet.{key_set_max_bytes, fetch_set, new_key_set, refresh}
use gateway_auth.KeySet.Refresh.{fetch_set_iff}
use gateway_auth.Discovery.{Endpoints, discover, well_known}
use gateway_auth.Discovery.Laws.{Declares, discover_iff}
use gateway_auth.Verifier.{World, cookie_value, Verifier, options_for}
use gateway_auth.Verifier.State.{ticks}
use gateway_auth.Profile.{Config, issuer_required, new_verifier, oauth2_proxy_oidc}
use gateway_auth.Profile.Startup.{Started, new_verifier_starts}
use gateway_auth.Verifier.Overlap.{Action, arrives, moves, ticks, ended, run}
use gateway_auth.Verifier.Overlap.Alone.{moves_only}
use gateway_auth.Verifier.Overlap.Rests.{IsRight}
use gateway_auth.Profile.Service.{history, started_system, calls_rest}
use gateway_auth.Fixture.{
  jwk, document, provider, down, issuer, env, world, verifier, good, ada, keys_url, userinfo_url,
}
use gateway_auth.Text.Space.{trim_space}
use gateway_auth.Userinfo.{cached_answer, ask, store}

abbrev config : Config
config = record {
  issuer = issuer;
  audience = [];
  source = none;
  claims = verifier.mapper;
  userinfo_fallback = true;
  display_cookie = codes "IdToken";
}

start_run : new_verifier jwk document provider provider config ≡ ok (verifier, world)
unfolding new_verifier discover same well_known trim_suffix new_key_set fetch_set key_set_max_bytes
    read_limited
start_run = refl

no_issuer_run : oauth2_proxy_oidc jwk document provider provider [] ≡ err issuer_required
unfolding oauth2_proxy_oidc
no_issuer_run = refl

abbrev endpoints : Endpoints
endpoints = record { jwks_uri = keys_url; userinfo_uri = userinfo_url }

declared_run : discover document provider issuer ≡ ok endpoints
unfolding discover same well_known trim_suffix
declared_run = refl

fetched_run : fetch_set jwk provider endpoints.jwks_uri ≡ ok (codes "k")
unfolding fetch_set key_set_max_bytes read_limited same
fetched_run = refl

new_verifier_starts_example :
    (v : Verifier) × (w : World Bytes) × (new_verifier jwk document provider provider config
      ≡ ok (v, w))
    × Started jwk document provider provider config v w
new_verifier_starts_example =
    new_verifier_starts jwk document provider provider config endpoints (codes "k") (λ e. cc)
      ((discover_iff document provider issuer endpoints).0 declared_run)
      ((fetch_set_iff jwk provider endpoints.jwks_uri (codes "k")).0 fetched_run)

-- Two calls for one caller overlap, around a tick that finds the network down.
abbrev schedule : List (Action Bytes)
schedule =
    arrives good ∷ moves 0 env ∷ arrives good ∷ ticks down ∷ moves_only 6 1 env
    ++ moves_only 5 0 env

served_run :
    (run jwk verifier schedule (started_system jwk document world)).calls
    ≡ (good, ended (ok ada)) ∷ (good, ended (ok ada)) ∷ []
unfolding run token default_source header_token trim_space same cookie_value split cut identity
    cached_answer ask store refresh fetch_set
served_run = refl

calls_rest_example :
    (found : Endpoints) × Declares document provider config.issuer found
    × ((keys : Option Bytes)
        → ((options_for verifier keys).issuer ≡ config.issuer)
          × ((options_for verifier keys).validate ≡ true))
    × IsRight (history jwk document verifier found.jwks_uri provider schedule) good (ended (ok ada))
calls_rest_example =
    calls_rest jwk document provider provider config verifier world schedule good (ok ada) start_run
      (subst (Any (λ c. c ≡ (good, ended (ok ada)))) (sym served_run) (inl refl))
