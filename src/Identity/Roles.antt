-- ===== src/Identity/Roles.antt =====
-- What the role tests decide, and what a context gives back.
use gateway_auth.Prelude.{◌≡◌, refl, ◌↔◌, true, false, List, [], ◌∷◌, some, arith, Any, ℕ}
use gateway_auth.Text.{Bytes, same_iff}
use gateway_auth.Identity.{
  Identity, items, holds, has_role, has_any_role, Context, other_key, value, with_identity,
  from_context,
}

holds_iff : (rs : List Bytes) (role : Bytes) → (holds rs role ≡ true) ↔ Any (λ r. r ≡ role) rs
unfolding holds
holds_iff [] role = ((λ h. cc), (λ h. absurd h))
holds_iff (r ∷ rs) role = ground (arith, same_iff r role, holds_iff rs role)

-- `HasRole` holds exactly when the role is one of the identity's roles, to the byte.
pub has_role_iff :
    (i : Identity) (role : Bytes) → (has_role i role ≡ true) ↔ Any (λ r. r ≡ role) (items i.roles)
unfolding has_role
has_role_iff i role = holds_iff (items i.roles) role

-- `HasAnyRole` holds exactly when some role asked for is one of the identity's roles.
pub has_any_role_iff :
    (i : Identity) (roles : List Bytes)
    → (has_any_role i roles ≡ true) ↔ Any (λ role. Any (λ r. r ≡ role) (items i.roles)) roles
unfolding has_any_role
has_any_role_iff i [] = ((λ h. cc), (λ h. absurd h))
has_any_role_iff i (role ∷ roles) = ground (arith, has_role_iff i role, has_any_role_iff i roles)

-- The caller holds one of the roles.
abbrev pub HoldsOne : Identity → List Bytes → Type 0
HoldsOne i roles = Any (λ role. Any (λ r. r ≡ role) (items i.roles)) roles

pub not-HoldsOne :
    (i : Identity) (roles : List Bytes) → has_any_role i roles ≡ false → ¬ HoldsOne i roles
not-HoldsOne i roles e h =
    let held : has_any_role i roles ≡ true = (has_any_role_iff i roles).1 h in ground arith

-- The identity that `WithIdentity` attached is what `FromContext` returns, also over an earlier one,
-- and the value at any other key is what it was.
pub from_context-with_identity :
    (ctx : Context) (i : Identity)
    → (from_context (with_identity ctx i) ≡ some i)
      × ((n : ℕ) → value (with_identity ctx i) (other_key n) ≡ value ctx (other_key n))
unfolding from_context with_identity
from_context-with_identity ctx i = (refl, λ n. refl)
