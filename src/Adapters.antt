-- ===== src/Adapters.antt =====
-- One service behind the adapters of adapters/fibermw, adapters/humamw and adapters/connectmw: what
-- it does, whichever of them stands in front of it.
pub mod Agree
pub mod Interface
pub mod Tests
use gateway_auth.Prelude.{ℕ, List, [], ◌∷◌, Option, none, some, Result, ok, err}
use gateway_auth.Text.{Bytes, codes}
use gateway_auth.Identity.{Identity, Authenticator, from_context}
use gateway_auth.Fiber
use gateway_auth.Huma
use gateway_auth.Connect

-- What a client is told: an error with its HTTP status and its text, or success.
pub data Told : Type 0 where
  error : ℕ → Bytes → Told
  done : Told

-- A service over the state `S`: it reads the caller's identity, and may fail with a message.
abbrev pub Service : Type 0 → Type 0
Service S = Option Identity → S → Option Bytes × S

-- What a service's answer tells.
abbrev pub answered : {S : Type 0} → Option Bytes × S → Told × S
answered (none, s) = (done, s)
answered (some m, s) = (error 500 m, s)

module _ {S : Type 0} (service : Service S) where
  -- The service as a Fiber handler, which finds the caller with `From`.
  abbrev pub fiber_reply :
      Fiber.FiberCtx → Option Bytes × S → Option Fiber.FiberError × Fiber.FiberCtx × S
  fiber_reply c (none, t) = (none, c, t)
  fiber_reply c (some m, t) = (some (record { status = 500; message = m }), c, t)

  abbrev pub fiber_handler : Fiber.Handler S
  fiber_handler c s = fiber_reply c (service (Fiber.from c) s)

  -- The service as a Huma handler, which finds the caller with `FromContext`.
  abbrev pub huma_reply : Option Bytes × S → Result {0, 0} Huma.HttpError Unit × S
  huma_reply (none, t) = (ok tt, t)
  huma_reply (some m, t) = (err (record { status = 500; message = m }), t)

  abbrev pub huma_handler : Huma.Next S Unit
  huma_handler ctx s = huma_reply (service (from_context ctx.context) s)

  -- The service as a connectrpc handler, which finds the caller with `FromContext`.
  abbrev pub connect_reply : Option Bytes × S → Result {0, 0} Connect.ConnectError Unit × S
  connect_reply (none, t) = (ok tt, t)
  connect_reply (some m, t) =
      (err (record { code = Connect.other_code (codes "internal"); message = m }), t)

  abbrev pub connect_handler : Connect.Unary S Unit
  connect_handler ctx s = connect_reply (service (from_context ctx) s)

-- The Fiber handler of a route: `Require`, or `RequireRoles` where roles are asked for.
abbrev pub asking : {S : Type 0} → Authenticator S → List Bytes → Fiber.Handler S → Fiber.Handler S
asking auth [] = Fiber.require auth
asking auth (role ∷ roles) = Fiber.require_roles auth (role ∷ roles)

-- What the client is told, by the answers of each framework, and the state left.
abbrev pub fiber_told : {S : Type 0} → Option Fiber.FiberError × Fiber.FiberCtx × S → Told × S
fiber_told (none, _, s) = (done, s)
fiber_told (some e, _, s) = (error e.status e.message, s)

abbrev pub huma_told : {S : Type 0} → Result {0, 0} Huma.HttpError Unit × S → Told × S
huma_told (ok _, s) = (done, s)
huma_told (err e, s) = (error e.status e.message, s)

-- The HTTP status of a code, as connectrpc maps it: 401 for `unauthenticated`, and 500 for `internal`,
-- the one other code here.
abbrev pub status_of : Connect.Code → ℕ
status_of Connect.code_unauthenticated = 401
status_of (Connect.other_code name) = 500

abbrev pub connect_told : {S : Type 0} → Result {0, 0} Connect.ConnectError Unit × S → Told × S
connect_told (ok _, s) = (done, s)
connect_told (err e, s) = (error (status_of e.code) e.message, s)
