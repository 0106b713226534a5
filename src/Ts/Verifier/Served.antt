-- ===== src/Ts/Verifier/Served.antt =====
-- A request to a Go service and to one of the port, behind the same gateway.
use gateway_auth.Source as GoSource
use gateway_auth.Fiber as Fiber
use gateway_auth.Verifier as Go
use gateway_auth.Ts.Verifier.{Verifier}
