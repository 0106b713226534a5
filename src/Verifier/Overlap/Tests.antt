-- ===== src/Verifier/Overlap/Tests.antt =====
-- Runs and instances of overlapping calls.
use gateway_auth.Prelude.{◌≡◌, refl, List, [], ◌∷◌, ◌++◌, ok, err}
use gateway_auth.Text.{Bytes, same, codes}
use gateway_auth.Text.Space.{trim_space}
use gateway_auth.Text.Split.{split, cut}
use gateway_auth.Identity.{no_credential}
use gateway_auth.Source.{default_source, token, header_token}
use gateway_auth.Claims.{identity}
use gateway_auth.KeySet.{fetch_set, refresh, fetch}
use gateway_auth.Userinfo.{cached_answer, ask, store}
use gateway_auth.Verifier.{authenticate, cookie_value}
use gateway_auth.Verifier.Overlap.{System, Action, arrived, ended, arrives, moves, ticks, run}
use gateway_auth.Verifier.Overlap.Alone.{moves_only, run-authenticate}
use gateway_auth.Verifier.Overlap.Outage.{seen, over, kept, lost, run-Outage}
use gateway_auth.Fixture.{jwk, env, world, verifier, good, down, ada, no_token, keys_url}

abbrev one_arrived : System Bytes
one_arrived = record { world = world; calls = (good, arrived) ∷ [] }

-- Two calls for one caller and one with no token overlap, around a failed refresh.
abbrev mixed : List (Action Bytes)
mixed =
    moves 0 env ∷ arrives good ∷ moves 1 env ∷ ticks down ∷ arrives no_token ∷ moves_only 3 0 env
    ++ moves 2 env ∷ moves_only 4 1 env
    ++ moves_only 2 0 env
    ++ moves 1 env ∷ []

schedule_run :
    (run jwk verifier mixed one_arrived).calls
    ≡ (good, ended (ok ada)) ∷ (good, ended (ok ada)) ∷ (no_token, ended (err no_credential)) ∷ []
unfolding run token default_source header_token trim_space same cookie_value split cut identity
    cached_answer ask store refresh fetch_set
schedule_run = refl

run-authenticate_example :
    run jwk verifier (arrives good ∷ moves_only 6 1 env) one_arrived ≡ record {
      world = (authenticate env verifier good world).1;
      calls = one_arrived.calls ++ (good, ended (authenticate env verifier good world).0) ∷ [];
    }
run-authenticate_example = run-authenticate jwk env verifier good one_arrived

-- The caller's three first steps, with a failed refresh between them, and without it.
abbrev through_outage : List (Action Bytes)
through_outage = moves 0 env ∷ ticks down ∷ moves_only 2 0 env

abbrev in_peace : List (Action Bytes)
in_peace = moves 0 env ∷ moves_only 2 0 env

run-Outage_example :
    seen
      ((run jwk verifier in_peace one_arrived).world, (run jwk verifier in_peace one_arrived).calls)
    ≡ seen (
      (run jwk verifier through_outage one_arrived).world,
      (run jwk verifier through_outage one_arrived).calls,
    )
unfolding fetch_set
run-Outage_example = run-Outage jwk verifier keys_url through_outage in_peace one_arrived refl (
    kept (moves 0 env)
      (lost down (fetch (codes "timeout")) refl (kept (moves 0 env) (kept (moves 0 env) over))))
