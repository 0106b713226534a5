-- ===== src/Discovery/Tests.antt =====
-- Runs and instances of discovery.
use gateway_auth.Prelude.{◌≡◌, refl, ◌↔◌, ok, err}
use gateway_auth.Text.{codes, same}
use gateway_auth.Text.Split.{trim_suffix}
use gateway_auth.Discovery.{Endpoints, discover, other_issuer, well_known}
use gateway_auth.Discovery.Laws.{Declares, discover_iff}
use gateway_auth.Fixture.{provider, document, issuer, keys_url, userinfo_url}

abbrev endpoints : Endpoints
endpoints = record { jwks_uri = keys_url; userinfo_uri = userinfo_url }

discover_runs :
    (discover document provider issuer ≡ ok endpoints)
    × (discover document provider (codes "https://other") ≡ err (other_issuer issuer))
unfolding discover same well_known trim_suffix
discover_runs = (refl, refl)

well_known_run :
    well_known (codes "https://idp/") ≡ codes "https://idp/.well-known/openid-configuration"
unfolding well_known trim_suffix
well_known_run = refl

discover_iff_example :
    (discover document provider issuer ≡ ok endpoints) ↔ Declares document provider issuer endpoints
discover_iff_example = discover_iff document provider issuer endpoints
