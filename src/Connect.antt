-- ===== src/Connect.antt =====
-- adapters/connectmw/connectmw.go: the unary interceptors for connectrpc.
pub mod Laws
pub mod Tests
use gateway_auth.Prelude.{Bool, true, false, List, [], Option, none, some, Result, ok, err}
use gateway_auth.Text.{Bytes, codes}
use gateway_auth.Identity.{Identity, Headers, AuthResult, Authenticator, Context, with_identity}

-- `connect.Code`, as far as the package names one.
pub data Code : Type 0 where
  code_unauthenticated : Code
  other_code : Bytes → Code

-- A `*connect.Error`.
pub record ConnectError : Type 0 where
  pub code : Code
  pub message : Bytes

-- `connect.UnaryFunc` for one request: what the rest of the chain does in a context, over the state
-- `S` that calls share. `R` is the response.
abbrev pub Unary : Type 0 → Type 0 → Type 0
Unary S R = Context → S → Result ConnectError R × S

abbrev pub unauthenticated : ConnectError
unauthenticated = record { code = code_unauthenticated; message = codes "authentication required" }

module _ {S R : Type 0} (auth : Authenticator S) where
  -- `Interceptor` behind the call of `Authenticate`.
  abbrev pub admit : Unary S R → Context → AuthResult × S → Result ConnectError R × S
  admit next ctx (err e, s) = (err unauthenticated, s)
  admit next ctx (ok i, s) = next (with_identity ctx i) s

  -- `Interceptor(auth)(next)(ctx, req)`; `h` are the headers of the request.
  unfoldable pub interceptor : Unary S R → Headers → Context → S → Result ConnectError R × S
  interceptor next h ctx s = admit next ctx (auth.authenticate h s)

  -- `OptionalInterceptor` behind the call of `Authenticate`.
  abbrev pub admit_any : Unary S R → Context → AuthResult × S → Result ConnectError R × S
  admit_any next ctx (err e, s) = next ctx s
  admit_any next ctx (ok i, s) = next (with_identity ctx i) s

  -- `OptionalInterceptor(auth)(next)(ctx, req)`.
  unfoldable pub optional_interceptor :
      Unary S R → Headers → Context → S → Result ConnectError R × S
  optional_interceptor next h ctx s = admit_any next ctx (auth.authenticate h s)
