-- ===== src/SignOut/Tests.antt =====
-- Runs and instances of the sign-out URL.
use gateway_auth.Prelude.{◌≡◌, ◌≢◌, refl, [], ◌++◌, All, arith, ◌⊎◌}
use gateway_auth.Text.{Bytes, codes}
use gateway_auth.Text.Split.{has_prefix, trim_right_byte}
use gateway_auth.SignOut.{sign_out_url, sign_out_base}
use gateway_auth.SignOut.Escape.{IsSafe, unescape}
use gateway_auth.SignOut.Shape.{sign_out_url_redirect}

-- The table of `TestSignOutURL`.
sign_out_runs :
    (sign_out_url [] [] ≡ codes "/oauth2/sign_out")
    × (sign_out_url (codes "/oauth2") [] ≡ codes "/oauth2/sign_out")
    × (sign_out_url (codes "_gwauth") [] ≡ codes "/_gwauth/sign_out")
    × (sign_out_url (codes "/_gwauth/") [] ≡ codes "/_gwauth/sign_out")
    × (sign_out_url (codes "/oauth2") (codes "/") ≡ codes "/oauth2/sign_out?rd=%2F")
unfolding sign_out_url has_prefix trim_right_byte
sign_out_runs = (refl, refl, refl, refl, refl)

sign_out_url_redirect_example :
    ((codes "/a b" ≡ [])
      × (sign_out_url (codes "_gwauth") (codes "/a b") ≡ sign_out_base (codes "_gwauth")))
    ⊎ ((codes "/a b" ≢ [])
        × (value : Bytes) × (sign_out_url (codes "_gwauth") (codes "/a b")
            ≡ sign_out_base (codes "_gwauth") ++ codes "?rd=" ++ value)
        × All IsSafe value
        × (unescape value ≡ codes "/a b"))
sign_out_url_redirect_example = sign_out_url_redirect (codes "_gwauth") (codes "/a b") (omega arith)
