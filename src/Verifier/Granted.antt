-- ===== src/Verifier/Granted.antt =====
-- The roles of an authenticated caller, as the token has them.
use gateway_auth.Prelude.{◌≡◌, ap, subst, List, Any, Any-map, ok}
use gateway_auth.Text.{Bytes}
use gateway_auth.Identity.{Identity, Headers, items}
use gateway_auth.Identity.Roles.{has_role_iff, HoldsOne}
use gateway_auth.Claims.{Token, with_defaults, identity}
use gateway_auth.Claims.Mapping.{GrantsIn, has_role-identity}
use gateway_auth.Verifier.{Verifier, World, Env, authenticate}
use gateway_auth.Verifier.Outcome.{RestsOn, authenticate_sound}

-- The roles claim of the token, under the name that the mapper gives it, grants one of the roles.
abbrev pub GrantsOne : Verifier → Token → List Bytes → Type 0
GrantsOne v t roles =
    Any (λ role. GrantsIn role (t.field (with_defaults v.mapper).roles_claim)) roles

-- A caller with one of the roles has it from the token that jwx accepted: no fallback gives a role.
pub authenticate-GrantsOne :
    {K : Type 0} (env : Env K) (v : Verifier) (h : Headers) (w : World K) (i : Identity)
    (roles : List Bytes)
    → (authenticate env v h w).0 ≡ ok i
    → HoldsOne i roles
    → (raw : Bytes) × (t : Token) × RestsOn env v h w i raw t × GrantsOne v t roles
authenticate-GrantsOne env v h w i roles e held =
    let (raw, t, rests) = authenticate_sound env v h w i e in
    (raw, t, rests, Any-map _ _ (granted raw t rests) roles held)
  where
    granted :
        (raw : Bytes) (t : Token)
        → RestsOn env v h w i raw t
        → (role : Bytes) → Any (λ r. r ≡ role) (items i.roles)
        → GrantsIn role (t.field (with_defaults v.mapper).roles_claim)
    granted raw t (_, _, (_, _, s)) role m = (has_role-identity v.mapper t raw role).0 (
        (has_role_iff (identity v.mapper t raw) role).1
          (subst (λ rs. Any (λ r. r ≡ role) (items rs)) (ap (λ z. z.roles) s) m))
