-- ===== src/Ts/Startup/Tests.antt =====
-- Runs and instances of the port's startup.
use gateway_auth.Prelude.{
  ◌≡◌, ◌↔◌, refl, Bool, true, false, [], none, some, ok, err, is_empty, not, if◌then◌else◌,
}
use gateway_auth.Text.{codes, same}
use gateway_auth.Text.Split.{trim_suffix}
use gateway_auth.Ts.Strings.{Units}
use gateway_auth.Ts.Discovery.{
  Fetch, Document, answered, failed, document, discover, well_known, other_issuer,
}
use gateway_auth.Ts.Startup.{
  CreateVerifierOptions, remote, create_verifier, verifier_of, discovery, issuer_required,
}
use gateway_auth.Ts.Startup.Laws.{Started, create_verifier_iff}

abbrev unchanged : Units → Units
unchanged s = s

abbrev any_url : Units → Bool
any_url uri = not (is_empty uri)

abbrev the_document : Document
the_document = record {
  issuer = some (codes "https://idp");
  jwks_uri = some (codes "https://idp/keys");
  userinfo_endpoint = none;
}

abbrev provider : Fetch
provider url =
    if same url (codes "https://idp/.well-known/openid-configuration")
    then answered 200 (ok (document the_document))
    else failed (codes "unreachable")

abbrev opts : CreateVerifierOptions
opts = record {
  issuer = codes "https://idp";
  audience = none;
  source = none;
  claims = none;
  userinfo_fallback = true;
  jwks = false;
  endpoints = none;
}

-- With a slash behind the issuer the document is found, and it declares another issuer.
slash_run :
    create_verifier unchanged any_url provider (record opts { issuer = codes "https://idp/" })
    ≡ err (discovery (other_issuer (some (codes "https://idp"))))
unfolding create_verifier discover well_known trim_suffix same
slash_run = refl

no_issuer_run :
    create_verifier unchanged any_url provider (record opts { issuer = [] }) ≡ err issuer_required
unfolding create_verifier
no_issuer_run = refl

create_verifier_iff_example :
    (create_verifier unchanged any_url provider opts
      ≡ ok (
        verifier_of unchanged any_url provider opts
            (record { jwks_uri = codes "https://idp/keys"; userinfo_uri = [] }),
        remote (codes "https://idp/keys"),
      ))
    ↔ Started unchanged any_url provider opts
        (verifier_of unchanged any_url provider opts
          (record { jwks_uri = codes "https://idp/keys"; userinfo_uri = [] }))
        (remote (codes "https://idp/keys"))
create_verifier_iff_example =
    create_verifier_iff unchanged any_url provider opts
      (verifier_of unchanged any_url provider opts
        (record { jwks_uri = codes "https://idp/keys"; userinfo_uri = [] }))
      (remote (codes "https://idp/keys")) refl refl
