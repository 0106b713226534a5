-- ===== src/Ts/Verifier/Conforms.antt =====
-- The verifiers of the two ports, where Go's has no display cookie: the port has none.
use gateway_auth.Identity as GoIdentity
use gateway_auth.Source as GoSource
use gateway_auth.Claims as GoClaims
use gateway_auth.Verifier as Go
use gateway_auth.Userinfo as GoUserinfo
use gateway_auth.Ts.Identity.{Identity}
use gateway_auth.Ts.Verifier.{Verifier}
