-- ===== src/Trust/Tests.antt =====
-- Instances of header trust.
use gateway_auth.Prelude.{◌≡◌, ◌≢◌, ◌↔◌, List, [], ◌∷◌, ok, err, if◌then◌else◌, ◌⊎◌}
use gateway_auth.Text.{Bytes, codes, same}
use gateway_auth.Identity.{Identity, Headers, no_credential}
use gateway_auth.Source.{header_user, header_email, header_groups}
use gateway_auth.Trust.{trust_headers}
use gateway_auth.Trust.Laws.{trust_headers_iff}

abbrev two_roles : List Bytes
two_roles = codes "ops" ∷ codes "dev" ∷ []

abbrev proxied : Headers
proxied name =
    if same name header_user
    then codes "ada"
    else if same name header_groups
    then codes "ops,dev"
    else []

trust_headers_iff_example :
    ((trust_headers proxied ≡ err no_credential)
      ↔ ((proxied header_user ≡ []) × (proxied header_email ≡ [])))
    × ((trust_headers proxied ≡ err no_credential)
        ⊎ ((i : Identity) × (trust_headers proxied ≡ ok i)
            × (i.name ≢ [])
            × (i.subject ≡ proxied header_user)))
trust_headers_iff_example = trust_headers_iff proxied
