-- ===== src/Verifier/Overlap.antt =====
-- Calls of `Authenticate` that overlap, with each other and with the refreshes of the keys. What calls
-- share is behind two mutexes, that of the key set and that of the userinfo cache. A move of a call
-- is what it does from one critical section to the next; between two moves anything may happen. An
-- exchange with the network, and the log, need no order of their own: each stands in one move.
pub mod Rests
pub mod Safety
pub mod Alone
pub mod Outage
pub mod Tests
use gateway_auth.Prelude.{
  ℕ, zero, suc, ◌++◌, Bool, true, false, ◌&&◌, not, List, [], ◌∷◌, Option, none, some, Result, ok,
  err, map, if◌then◌else◌, is_empty,
}
use gateway_auth.Text.{Bytes}
use gateway_auth.Identity.{Identity, Headers, no_credential, invalid_token, AuthResult}
use gateway_auth.Source.{token}
use gateway_auth.Claims.{Token, identity}
use gateway_auth.Http.{Network}
use gateway_auth.KeySet.{Jwk}
use gateway_auth.Userinfo.{Entry, Filled, cached_answer, ask, use_answer}
use gateway_auth.Verifier.{
  Verifier, World, Env, token_rejected, userinfo_warning, options_for, header_cookie, cookie_value,
  is_nameless, use_cookie,
}
use gateway_auth.Verifier.State.{tick_world}

-- How far a call is: `verifying` and `baking` have read the keys, for the access token and for the
-- cookie; `asking` has missed in the cache.
pub data Phase (K : Type 0) : Type 0 where
  arrived : Phase K
  verifying : Bytes → Option K → Phase K
  accepted : Bytes → Identity → Phase K
  baking : Bytes → Identity → Option K → Phase K
  settled : Bytes → Identity → Phase K
  asking : Bytes → Bytes → Identity → Phase K
  ended : AuthResult → Phase K

abbrev pub Call : Type 0 → Type 0
Call K = Headers × Phase K

-- The shared state, and every call so far, in the order of arrival.
pub record System (K : Type 0) : Type 0 where
  pub world : World K
  pub calls : List (Call K)

-- Up to the first `v.keys.Set()`.
abbrev pub begin : {K : Type 0} → World K → Option Bytes → World K × Phase K
begin w none = (w, ended (err no_credential))
begin w (some raw) = (w, verifying raw w.key_set.keys)

-- The text of the display cookie.
abbrev pub cookie_of : Verifier → Headers → Bytes
cookie_of v h = cookie_value (h header_cookie) v.display_cookie

-- The first critical section of `fill`, where there is a fetcher.
abbrev pub found :
    {K : Type 0} → World K → Bytes → Bytes → Identity → Option Entry → World K × Phase K
found w raw uri i (some e) = (w, ended (ok (record i { name = e.name; email = e.email })))
found w raw uri i none = (w, asking raw uri i)

module _ {K : Type 0} (env : Env K) (v : Verifier) where
  -- From `jwt.ParseString` to the identity.
  abbrev verified : World K → Bytes → Result Bytes Token → World K × Phase K
  verified w raw (err e) =
      (record w { log = w.log ++ token_rejected e ∷ [] }, ended (err invalid_token))
  verified w raw (ok t) = (w, accepted raw (identity v.mapper t raw))

  -- The tests before the cookie is parsed, and the second `v.keys.Set()`.
  abbrev bake : Headers → World K → Bytes → Identity → World K × Phase K
  bake h w raw i =
      if is_nameless i && not (is_empty v.display_cookie) && not (is_empty (cookie_of v h))
      then (w, baking raw i w.key_set.keys)
      else (w, settled raw i)

  -- The rest of `fillFromDisplayCookie`.
  abbrev baked : World K → Bytes → Identity → Result Bytes Token → World K × Phase K
  baked w raw i r = let (i', w') = use_cookie env v i w r in (w', settled raw i')

  abbrev look : World K → Bytes → Identity → Option Bytes → World K × Phase K
  look w raw i none = (w, ended (ok i))
  look w raw i (some uri) = found w raw uri i (cached_answer w.cache i.subject env.now)

  abbrev settle : World K → Bytes → Identity → World K × Phase K
  settle w raw i = if is_nameless i then look w raw i v.userinfo else (w, ended (ok i))

  -- The request of `fill`, and its second critical section.
  abbrev land : World K → Identity → Filled → World K × Phase K
  land w i f = (
    record w { cache = f.cache; log = w.log ++ map userinfo_warning f.warnings },
    ended (ok f.filled),
  )

  -- One move of a call; `env` is what it meets then.
  unfoldable pub move : Headers → World K → Phase K → World K × Phase K
  move h w arrived = begin w (token v.source h)
  move h w (verifying raw keys) = verified w raw (env.parse_string raw (options_for v keys))
  move h w (accepted raw i) = bake h w raw i
  move h w (baking raw i keys) =
      baked w raw i (env.parse_string (cookie_of v h) (options_for v keys))
  move h w (settled raw i) = settle w raw i
  move h w (asking raw uri i) =
      land w i (use_answer env.later i w.cache (ask env.decode env.net uri raw i.subject))
  move h w (ended r) = (w, ended r)

  -- The move of the `n`-th call; there may be no such call.
  unfoldable pub move_at : ℕ → World K → List (Call K) → World K × List (Call K)
  unfolding move
  move_at n w [] = (w, [])
  move_at zero w ((h, p) ∷ cs) = let (w', p') = move h w p in (w', (h, p') ∷ cs)
  move_at (suc n) w (c ∷ cs) = let (w', cs') = move_at n w cs in (w', c ∷ cs')

-- What may happen next: a request comes in, a call moves, or `refreshLoop` ticks.
pub data Action (K : Type 0) : Type 0 where
  arrives : Headers → Action K
  moves : ℕ → Env K → Action K
  ticks : Network → Action K

module _ {K : Type 0} (jwk : Jwk K) (v : Verifier) where
  unfoldable pub act : Action K → System K → System K
  unfolding move_at tick_world
  act (arrives h) s = record s { calls = s.calls ++ (h, arrived) ∷ [] }
  act (moves n env) s =
      let (w, cs) = move_at env v n s.world s.calls in record { world = w; calls = cs }
  act (ticks net) s = record s { world = tick_world jwk net s.world }

  unfoldable pub run : List (Action K) → System K → System K
  unfolding act
  run [] s = s
  run (a ∷ acts) s = run acts (act a s)
