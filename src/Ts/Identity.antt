-- ===== src/Ts/Identity.antt =====
-- ts/src/identity.ts: the identity, its roles, the errors, and the authenticator interface.
use gateway_auth.Prelude.{Bool, false, ◌||◌, List, [], ◌∷◌, Result, ℕ}
use gateway_auth.Text.{same}
use gateway_auth.Ts.Strings.{Units}
use gateway_auth.Ts.Source.{Headers}

-- A value of type `unknown`, as far as the package looks into it: a string, an array, or anything
-- else, with a tag.
mutual
  pub data Value : Type 0 where
    string : Units → Value
    array : Values → Value
    other : ℕ → Value

  pub data Values : Type 0 where
    nil : Values
    cons : Value → Values → Values

-- A `Record<string, unknown>`: the properties of the object, each name once.
abbrev pub Payload : Type 0
Payload = List (Units × Value)

pub record Identity : Type 0 where
  pub subject : Units
  pub name : Units
  pub email : Units
  pub roles : List Units
  pub token : Units
  pub claims : Payload

-- `roles.includes(role)`.
unfoldable pub includes : List Units → Units → Bool
includes [] role = false
includes (r ∷ rs) role = same r role || includes rs role

unfoldable pub has_role : Identity → Units → Bool
unfolding includes
has_role i role = includes i.roles role

unfoldable pub has_any_role : Identity → List Units → Bool
has_any_role i [] = false
has_any_role i (role ∷ roles) = has_role i role || has_any_role i roles

-- What an authenticator may reject with: the two error classes, or anything else.
pub data Rejection : Type 0 where
  no_credential : Rejection
  invalid_token : Rejection
  thrown : Units → Rejection

-- `Authenticator`, over the state `S` that its calls may change.
pub record Authenticator (S : Type 0) : Type 0 where
  pub authenticate : Headers → S → Result Rejection Identity × S
  pub enabled : Bool
