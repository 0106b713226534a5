-- ===== src/KeySet/Tests.antt =====
-- Runs and instances of the key set.
use gateway_auth.Prelude.{
  ◌≡◌, refl, ◌↔◌, ◌≤◌, ◌≢◌, ◌^◌, take, length, List, [], ◌∷◌, none, ok, ℕ, suc, ◌*◌, true, leb,
  if◌then◌else◌, some, arith,
}
use gateway_auth.Text.{codes, same}
use gateway_auth.Http.{Body, answered, status_ok, read_limited, Network}
use gateway_auth.KeySet.{
  fetch, key_set_max_bytes, fetch_set, refresh, new_key_set, refresh_loop, Wake, tick, done,
}
use gateway_auth.KeySet.Refresh.{Fetches, fetch_set_iff}
use gateway_auth.KeySet.Timing.{
  second, key_set_refresh, Timeline, IsClocked, HasDone, held, held_bound,
}
use gateway_auth.KeySet.Bounds.{fetch_set_bounded}
use gateway_auth.KeySet.Loop.{ticks, latest, failures, refresh_loop_lem}
use gateway_auth.Fixture.{jwk, provider, down, keys_url, served_keys, body_of}

abbrev wakes : List Wake
wakes = tick down ∷ tick provider ∷ done ∷ tick down ∷ []

start_run : new_key_set jwk provider keys_url ≡ ok served_keys
unfolding new_key_set fetch_set key_set_max_bytes read_limited same
start_run = refl

-- A refresh that fails is logged, and the keys stay.
loop_run : refresh_loop jwk wakes served_keys ≡ (served_keys, fetch (codes "timeout") ∷ [])
unfolding refresh_loop refresh fetch_set key_set_max_bytes read_limited same
loop_run = refl

fetch_set_iff_example :
    (fetch_set jwk provider keys_url ≡ ok (codes "k")) ↔ Fetches jwk provider keys_url (codes "k")
fetch_set_iff_example = fetch_set_iff jwk provider keys_url (codes "k")

served : fetch_set jwk provider keys_url ≡ ok (codes "k")
unfolding fetch_set key_set_max_bytes read_limited same
served = refl

fetch_set_bounded_example :
    (body : Body) × (provider (record { url = keys_url; authorization = none })
      ≡ answered status_ok body)
    × (jwk.parse (take (2 ^ 20) body.content) ≡ ok (codes "k"))
    × (length (take (2 ^ 20) body.content) ≤ 2 ^ 20)
    × (jwk.len (codes "k") ≢ 0)
fetch_set_bounded_example = fetch_set_bounded jwk provider keys_url (codes "k") served

refresh_loop_lem_example : refresh_loop jwk wakes served_keys ≡ (
  record {
    url = served_keys.url;
    keys = latest jwk served_keys.url (ticks wakes) served_keys.keys;
  },
  failures jwk served_keys.url (ticks wakes),
)
refresh_loop_lem_example = refresh_loop_lem jwk wakes served_keys

-- The provider after it has rotated its keys, which is before the second tick.
abbrev rotated : Network
rotated r = answered 200 (body_of (codes "new"))

abbrev rotation : Timeline
rotation = record {
  start = 0;
  tick_at = λ n. n * key_set_refresh;
  takes = λ n. 2 * second;
  net = λ n. if leb 2 n then rotated else provider;
}

rotation-IsClocked : IsClocked rotation
rotation-IsClocked = record { delivered = λ n r. omega arith; in_time = λ n. omega arith }

rotated_fetch : fetch_set jwk rotated keys_url ≡ ok (codes "new")
unfolding fetch_set key_set_max_bytes read_limited
rotated_fetch = refl

held_bound_example :
    ((n : ℕ) × HasDone jwk rotation served_keys (50 * 60 * second) n)
    × ((n : ℕ)
        → HasDone jwk rotation served_keys (50 * 60 * second) n
        → (held jwk rotation served_keys n).keys ≡ some (codes "new"))
held_bound_example =
    held_bound jwk rotation served_keys (codes "new") (29 * 60 * second) (50 * 60 * second)
      rotation-IsClocked (omega arith) delivers (omega arith)
  where
    delivers :
        (m : ℕ)
        → 29 * 60 * second ≤ suc m * key_set_refresh
        → fetch_set jwk (if leb 2 (suc m) then rotated else provider) keys_url ≡ ok (codes "new")
    delivers m late =
        let second_on : leb 2 (suc m) ≡ true = ground arith in rw second_on rotated_fetch
