-- ===== src/Lib.antt =====
-- gateway-auth: the Go module that a service behind an OpenID Connect gateway uses to learn who
-- calls it. The gateway (oauth2-proxy, or Envoy Gateway) forwards an access token in a header; the
-- module reads it, verifies it against the issuer's keys, and maps its claims to an identity.
--
-- The parts, and how they meet. `NewVerifier` (profile.go) asks the issuer's discovery document
-- (discovery.go) for the URL of its keys, fetches them once (keyset.go), and gives back a verifier;
-- a loop refreshes the keys from then on. `Authenticate` of the verifier (verify.go) takes the raw
-- token from a token source (source.go), hands it to jwx with the current keys, maps the claims
-- (claims.go), and, where the token has neither a name nor an email, looks for them in the
-- gateway's ID-token cookie and then at the provider's userinfo endpoint (userinfo.go). Header trust
-- and the disabled authenticator implement the same interface (gatewayauth.go). The adapters for
-- Fiber, Huma and connectrpc stand in front of a service's handlers, over any authenticator.
--
-- The files, with the code that each models:
--   Text, Text/Space, Text/Split  Go strings as lists of bytes; the functions of package strings
--   Identity    gatewayauth.go: Identity, HasRole, HasAnyRole, Headers, ErrNoCredential and
--               ErrInvalidToken, Authenticator, WithIdentity, FromContext, NewDisabled
--   Source      source.go: HeaderSource, ChainSource, DefaultSource, splitAndTrim,
--               ForwardAuthorization
--   Claims      claims.go: ClaimsMapper, withDefaults, identity, claimsMap, stringClaim,
--               claimValues, stringsFrom
--   Http        what the module sees of net/http: a request goes out, an exchange comes back
--   KeySet      keyset.go: newKeySet, refresh, refreshLoop; KeySet/Timing has the
--               loop by the times of its ticker and its timeouts
--   Userinfo    userinfo.go: fill and its cache; Userinfo/Sharing and Userinfo/Steps have the
--               calls that overlap; Userinfo/Directory has the cache without its order
--   Verifier    verify.go: Authenticate, fillFromDisplayCookie, cookieValue, parse;
--               Verifier/State has requests and refreshes in any order; Verifier/Overlap has
--               calls that overlap, each cut at the two mutexes, and its children what holds of
--               every schedule; Verifier/Locks has the locks of both mutexes, with newHTTPClient
--               and the timeouts of the exchanges
--   Trust       verify.go and profile.go: headerTrust, NewHeaderTrust
--   Discovery   discovery.go: discover
--   Profile     profile.go: Config, NewVerifier, OAuth2ProxyOIDC; Profile/Service has a started
--               verifier at work
--   SignOut     signout.go: SignOutURL, with url.QueryEscape of net/url
--   Connect     adapters/connectmw/connectmw.go: Interceptor, OptionalInterceptor
--   Fiber       adapters/fibermw/fibermw.go: Require, Optional, RequireRoles, From, statusFor
--   Huma        adapters/humamw/humamw.go: Register, registerScheme, middleware, requiredRoles
--   Adapters    one service behind each of the three adapters, and what they rely on of an
--               authenticator
--   Ts          ts/src, the TypeScript port: Ts/Source (source.ts), Ts/Identity (identity.ts),
--               Ts/Claims (claims.ts), Ts/Adapters (adapters.ts), Ts/SignOut (signout.ts),
--               Ts/Userinfo (userinfo.ts), Ts/Discovery (discovery.ts), Ts/Verifier and Ts/Startup
--               (verify.ts, profile.ts), Ts/Badge (react/UserBadge.tsx) and Ts/Strings (methods of
--               strings); Ts/Userinfo/Overlap has the calls that overlap; the modules
--               `Conforms`, Ts/Verifier/Trust and Ts/Verifier/Served compare each with the Go
--               code; Ts/Userinfo/Alike and Ts/Verifier/Alike say when the
--               two are set up alike
--   Text/Ascii  texts on which Go's strings and those of the port are alike
--   Prelude     names of the libraries, tests on numbers, lists, results
--   Fixture     a small provider for the runs
-- The children of a module named for what they show hold its lemmas; each `Tests` holds runs and
-- instances.
--
-- How state is modelled. A function that changes state takes the state and returns the new one. The
-- state of a verifier is `World`: the key set, the cache of userinfo answers, and the log. An
-- authenticator is a record over any state `S`, and an adapter is a function over the same `S`, so
-- that each adapter can be put in front of the verifier, of header trust, or of any other
-- implementation. A pair `(T, error)` is a `Result`, a pair `(T, bool)` an `Option`; a nil slice and
-- an empty one are told apart.
--
-- Bounds. Every loop of the source runs over a finite list and is structural recursion here; there
-- is no fuel. `refreshLoop` runs until its context ends: it is modelled over every finite sequence
-- of wakes. A call of `Authenticate` is cut into six moves; a schedule is any finite
-- sequence of arrivals, moves and refreshes. The response that carries the keys is read up to 2 ^ 20
-- bytes; a body is a list of bytes of any length, which may break off with an error. The age of a
-- cache entry is measured in nanoseconds, in the port in milliseconds, as natural numbers.
--
-- What is a parameter: `jwt.ParseString`, `jwk.Parse` and `Set.Len` of jwx, over any type of key
-- sets; `jwtVerify` of jose, `fetch` and the URL parser; `toLowerCase` and `encodeURIComponent` on
-- texts that are not ASCII; the decoders of encoding/json; the network, with its timeouts; the
-- clock. What jwx documents of `jwt.ParseString` is the hypothesis `Contract` of
-- Verifier/Contract.antt; what package time documents of a ticker, and net/http and context of a
-- timeout, is the hypothesis `IsClocked` of KeySet/Timing.antt; that an exchange
-- under a timeout is over at some time is how Verifier/Locks takes one.
--
-- What is not modelled: the texts of errors and log records; the setup of HTTP clients; the Helm
-- chart; the elements and the style that the React badge is made of; `strings.EqualFold` for a scheme that is not
-- ASCII. The mutex of the key set guards one pointer that is read and written whole; the mutex of
-- the userinfo cache guards two critical sections, which are the steps of Userinfo/Sharing.
mod Prelude
pub mod Text
pub mod Identity
pub mod Source
pub mod Claims
pub mod Http
pub mod KeySet
pub mod Userinfo
pub mod Verifier
pub mod Adapters
pub mod Discovery
pub mod Trust
pub mod Profile
pub mod SignOut
pub mod Connect
pub mod Fiber
pub mod Huma
pub mod Ts
mod Fixture
