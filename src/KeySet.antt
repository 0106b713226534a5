-- ===== src/KeySet.antt =====
-- keyset.go: the issuer's public keys, and the loop that refreshes them.
pub mod Refresh
pub mod Loop
pub mod Bounds
pub mod Timing
pub mod Tests
use gateway_auth.Prelude.{
  ℕ, ◌^◌, Bool, true, false, List, [], ◌∷◌, Option, none, some, Result, ok, err, ◌>>=◌, map_err,
  if◌then◌else◌, ◌==◌,
}
use gateway_auth.Text.{Bytes, codes}
use gateway_auth.Http.{
  Request, Body, Exchange, not_built, failed, answered, Network, status_ok, read_limited,
}

-- `keySetMaxBytes`.
unfoldable pub key_set_max_bytes : ℕ
key_set_max_bytes = 2 ^ 20

-- jwx's `jwk.Parse` and `Set.Len`, over its type of key sets.
pub record Jwk (K : Type 0) : Type 0 where
  pub parse : Bytes → Result Bytes K
  pub len : K → ℕ

-- The errors of `refresh`.
pub data RefreshError : Type 0 where
  build_request : Bytes → RefreshError
  fetch : Bytes → RefreshError
  unexpected_status : ℕ → RefreshError
  read_body : Bytes → RefreshError
  parse_set : Bytes → RefreshError
  no_keys : RefreshError

-- `keySet`; `keys` is nil until the first refresh. The logger and the client keep no state here, and
-- each of the two critical sections under the mutex reads or writes `keys` whole.
pub record KeySet (K : Type 0) : Type 0 where
  pub url : Bytes
  pub keys : Option K

-- The end of `refresh`: an error, or the write of `keys`.
adopt : {K : Type 0} → KeySet K → Result RefreshError K → Result RefreshError (Unit {0}) × KeySet K
adopt ks (ok set) = (ok tt, record ks { keys = some set })
adopt ks (err e) = (err e, ks)

-- The end of `newKeySet`.
abbrev started :
    {K : Type 0} → Result RefreshError (Unit {0}) × KeySet K → Result RefreshError (KeySet K)
started (ok _, ks) = ok ks
started (err e, ks) = err e

-- The warning of `refreshLoop`, before those of the later rounds.
abbrev pub warned : Result RefreshError (Unit {0}) → List RefreshError → List RefreshError
warned (ok _) warnings = warnings
warned (err e) warnings = e ∷ warnings

module _ {K : Type 0} (jwk : Jwk K) where
  -- `refresh` from the response to the check for an empty set.
  read_set : Body → Result RefreshError K
  read_set body = do
    bytes ← map_err read_body (read_limited key_set_max_bytes body)
    set ← map_err parse_set (jwk.parse bytes)
    if jwk.len set == 0 then err no_keys else ok set

  -- `refresh` from what `client.Do` returns.
  receive_set : Exchange → Result RefreshError K
  unfolding read_set
  receive_set (not_built e) = err (build_request e)
  receive_set (failed e) = err (fetch e)
  receive_set (answered status body) =
      if status == status_ok then read_set body else err (unexpected_status status)

  -- `refresh` up to the write of `keys`.
  unfoldable pub fetch_set : Network → Bytes → Result RefreshError K
  unfolding receive_set
  fetch_set net url = receive_set (net (record { url = url; authorization = none }))

  -- `refresh`: the set is replaced only where no step failed.
  unfoldable pub refresh : KeySet K → Network → Result RefreshError (Unit {0}) × KeySet K
  unfolding adopt
  refresh ks net = adopt ks (fetch_set net ks.url)

  -- `newKeySet`: the first refresh must succeed.
  unfoldable pub new_key_set : Network → Bytes → Result RefreshError (KeySet K)
  unfolding refresh
  new_key_set net url = started (refresh (record { url = url; keys = none }) net)

-- What wakes `refreshLoop`: the ticker, with what the network answers then, or the end of the
-- context.
pub data Wake : Type 0 where
  tick : Network → Wake
  done : Wake

module _ {K : Type 0} (jwk : Jwk K) where
  -- `refreshLoop` over the wakes so far: the key set, and the warnings that it logged.
  unfoldable pub refresh_loop : List Wake → KeySet K → KeySet K × List RefreshError
  refresh_loop [] ks = (ks, [])
  refresh_loop (done ∷ wakes) ks = (ks, [])
  refresh_loop (tick net ∷ wakes) ks =
      let (result, ks') = refresh jwk ks net in
      let (last, warnings) = refresh_loop wakes ks' in (last, warned result warnings)
