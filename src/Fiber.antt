-- ===== src/Fiber.antt =====
-- adapters/fibermw/fibermw.go: the Fiber v3 handlers.
pub mod Laws
pub mod Verified
pub mod Tests
use gateway_auth.Prelude.{
  ℕ, Bool, true, false, ◌&&◌, not, List, [], ◌∷◌, Option, none, some, Result, ok, err,
  if◌then◌else◌,
}
use gateway_auth.Text.{Bytes, codes}
use gateway_auth.Identity.{
  Identity, Headers, AuthError, AuthResult, Authenticator, Context, Value, identity, context_key,
  value, as_identity, is_no_credential, is_invalid_token, has_any_role,
}

-- A `fiber.Ctx`: the headers of its request, Fiber's locals, and the user values of the fasthttp
-- request context, which net/http handlers adapted into Fiber see as their context.
pub record FiberCtx : Type 0 where
  pub headers : Headers
  pub locals : Context
  pub user_values : Context

-- A `*fiber.Error`.
pub record FiberError : Type 0 where
  pub status : ℕ
  pub message : Bytes

-- A `fiber.Handler` over the state `S`: the error that it returns, if any, and what it leaves.
abbrev pub Handler : Type 0 → Type 0
Handler S = FiberCtx → S → Option FiberError × FiberCtx × S

unfoldable pub attach : FiberCtx → Identity → FiberCtx
attach c i = record c {
  locals = (context_key, identity i) ∷ c.locals;
  user_values = (context_key, identity i) ∷ c.user_values;
}

unfoldable pub from : FiberCtx → Option Identity
unfolding value
from c = as_identity (value c.locals context_key)

abbrev pub unauthorized : Bytes → FiberError
unauthorized message = record { status = 401; message = message }

abbrev pub forbidden : FiberError
forbidden = record { status = 403; message = codes "your account holds none of the required roles" }

unfoldable pub status_for : AuthError → FiberError
unfolding is_no_credential is_invalid_token
status_for e =
    if is_no_credential e
    then unauthorized (codes "authentication required: reach this service through the gateway")
    else if is_invalid_token e
    then unauthorized (codes "invalid credential")
    else unauthorized (codes "authentication failed")

module _ {S : Type 0} (auth : Authenticator S) where
  -- The handlers behind the call of `Authenticate`; `next` is what `c.Next()` runs.
  abbrev pub pass : Handler S → FiberCtx → AuthResult × S → Option FiberError × FiberCtx × S
  pass next c (err e, s) = (some (status_for e), c, s)
  pass next c (ok i, s) = next (attach c i) s

  abbrev pub pass_any : Handler S → FiberCtx → AuthResult × S → Option FiberError × FiberCtx × S
  pass_any next c (err e, s) = next c s
  pass_any next c (ok i, s) = next (attach c i) s

  abbrev pub pass_roles :
      List Bytes → Handler S → FiberCtx → AuthResult × S → Option FiberError × FiberCtx × S
  pass_roles roles next c (err e, s) = (some (status_for e), c, s)
  pass_roles roles next c (ok i, s) =
      if auth.enabled && not (has_any_role i roles)
      then (some forbidden, c, s)
      else next (attach c i) s

  unfoldable pub require : Handler S → Handler S
  require next c s = pass next c (auth.authenticate c.headers s)

  unfoldable pub optional : Handler S → Handler S
  optional next c s = pass_any next c (auth.authenticate c.headers s)

  unfoldable pub require_roles : List Bytes → Handler S → Handler S
  require_roles roles next c s = pass_roles roles next c (auth.authenticate c.headers s)
