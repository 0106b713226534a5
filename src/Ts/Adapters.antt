-- ===== src/Ts/Adapters.antt =====
-- ts/src/adapters.ts: the headers of a request, and the express middleware.
pub mod Conforms
use gateway_auth.Prelude.{
  ℕ, ◌++◌, Bool, true, false, ◌&&◌, not, List, [], ◌∷◌, Option, none, some, Result, ok, err,
  if◌then◌else◌, is_empty,
}
use gateway_auth.Text.{codes}
use gateway_auth.Ts.Strings.{Units, to_lower_case}
use gateway_auth.Ts.Source.{Headers}
use gateway_auth.Ts.Identity.{
  Identity, Rejection, no_credential, invalid_token, thrown, Authenticator, has_any_role,
}

-- The value of a header in node's `req.headers`.
pub data HeaderValue : Type 0 where
  one : Units → HeaderValue
  many : List Units → HeaderValue

-- Node's `req.headers`.
abbrev pub NodeHeaders : Type 0
NodeHeaders = Units → Option HeaderValue

-- `value.join(", ")`.
unfoldable pub join_values : List Units → Units
join_values [] = []
join_values (v ∷ []) = v
join_values (v ∷ vs) = let rest = join_values vs in v ++ codes ", " ++ rest

abbrev pub header_text : Option HeaderValue → Option Units
header_text none = none
header_text (some (one v)) = some v
header_text (some (many vs)) = some (join_values vs)

-- `fromNodeHeaders(headers)`.
unfoldable pub from_node_headers : (Units → Units) → NodeHeaders → Headers
unfolding to_lower_case join_values
from_node_headers lower_other headers name = header_text (headers (to_lower_case lower_other name))

pub record RequestLike : Type 0 where
  pub headers : NodeHeaders
  pub identity : Option Identity

-- What becomes of a request: an answer with a status and the text of `error`, or `next()`.
pub data Outcome : Type 0 where
  sent : ℕ → Units → Outcome
  passed : RequestLike → Outcome

-- `sendAuthError(res, err)`.
unfoldable pub send_auth_error : Rejection → Outcome
send_auth_error no_credential =
    sent 401 (codes "authentication required: reach this service through the gateway")
send_auth_error invalid_token = sent 401 (codes "invalid credential")
send_auth_error (thrown text) = sent 401 (codes "authentication failed")

-- `roles && roles.length > 0`.
abbrev pub asks_roles : Option (List Units) → Bool
asks_roles none = false
asks_roles (some roles) = not (is_empty roles)

abbrev pub listed : Option (List Units) → List Units
listed none = []
listed (some roles) = roles

module _ {S : Type 0} (auth : Authenticator S) where
  -- `authenticateThen` behind the call of `authenticate`.
  unfoldable pub answer : Option (List Units) → RequestLike → Result Rejection Identity → Outcome
  unfolding send_auth_error
  answer roles req (err e) = send_auth_error e
  answer roles req (ok i) =
      if asks_roles roles && auth.enabled && not (has_any_role i (listed roles))
      then sent 403 (codes "your account holds none of the required roles")
      else passed (record req { identity = some i })

  unfoldable pub authenticate_then :
      (Units → Units) → Option (List Units) → RequestLike → S → Outcome × S
  unfolding answer from_node_headers
  authenticate_then lower_other roles req s =
      let (r, s') = auth.authenticate (from_node_headers lower_other req.headers) s in
      (answer roles req r, s')

  unfoldable pub middleware : (Units → Units) → RequestLike → S → Outcome × S
  unfolding authenticate_then
  middleware lower_other = authenticate_then lower_other none

  unfoldable pub require_roles : (Units → Units) → List Units → RequestLike → S → Outcome × S
  unfolding authenticate_then
  require_roles lower_other roles = authenticate_then lower_other (some roles)
