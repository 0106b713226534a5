-- ===== src/Identity/Tests.antt =====
-- Runs and instances of the identity's functions.
use gateway_auth.Prelude.{◌≡◌, refl, true, false, [], ◌∷◌, some}
use gateway_auth.Text.{codes, same}
use gateway_auth.Identity.{
  Identity, zero_identity, has_role, has_any_role, no_credential, wrapped, foreign,
  is_no_credential, is_invalid_token,
}

abbrev alice : Identity
alice = record zero_identity { roles = some (codes "viewer" ∷ codes "admin" ∷ []) }

role_runs :
    (has_role alice (codes "admin") ≡ true)
    × (has_role alice (codes "adm") ≡ false)
    × (has_any_role alice (codes "x" ∷ codes "admin" ∷ []) ≡ true)
    × (has_any_role alice [] ≡ false)
unfolding has_any_role has_role same
role_runs = (refl, refl, refl, refl)

-- `errors.Is` looks through the wrapping.
wrapped_error :
    (is_no_credential (wrapped (codes "ctx") no_credential) ≡ true)
    × (is_invalid_token (foreign (codes "x")) ≡ false)
unfolding is_no_credential is_invalid_token
wrapped_error = (refl, refl)
