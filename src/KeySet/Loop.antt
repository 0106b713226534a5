-- ===== src/KeySet/Loop.antt =====
-- `refreshLoop`, over every sequence of ticks and network answers.
use gateway_auth.Prelude.{◌≡◌, refl, List, [], ◌∷◌, Option, some, Result, ok, err}
use gateway_auth.Text.{Bytes}
use gateway_auth.Http.{Network}
use gateway_auth.KeySet.{
  Jwk, KeySet, RefreshError, fetch_set, refresh, new_key_set, refresh_loop, Wake, tick, done, adopt,
  warned,
}
use gateway_auth.KeySet.Refresh.{IsServing, refresh-IsServing, new_key_set_ok}

-- The ticks before the context ends.
abbrev pub ticks : List Wake → List Network
ticks [] = []
ticks (done ∷ wakes) = []
ticks (tick net ∷ wakes) = net ∷ ticks wakes

abbrev pub newer : {K : Type 0} → Result RefreshError K → Option K → Option K
newer (ok set) keys = some set
newer (err e) keys = keys

abbrev pub failed_first :
    {K : Type 0} → Result RefreshError K → List RefreshError → List RefreshError
failed_first (ok set) es = es
failed_first (err e) es = e ∷ es

adopt-keys :
    {K : Type 0} (ks : KeySet K) (r : Result RefreshError K)
    → (adopt ks r).1 ≡ record ks { keys = newer r ks.keys }
unfolding adopt
adopt-keys ks (ok set) = refl
adopt-keys ks (err e) = refl

warned-adopt :
    {K : Type 0} (ks : KeySet K) (r : Result RefreshError K) (es : List RefreshError)
    → warned (adopt ks r).0 es ≡ failed_first r es
unfolding adopt
warned-adopt ks (ok set) es = refl
warned-adopt ks (err e) es = refl

module _ {K : Type 0} (jwk : Jwk K) where
  -- The set that the ticks leave: the latest that could be fetched, or else the one before them.
  abbrev pub latest : Bytes → List Network → Option K → Option K
  latest url [] keys = keys
  latest url (net ∷ nets) keys = latest url nets (newer (fetch_set jwk net url) keys)

  -- The errors of the fetches that failed.
  abbrev pub failures : Bytes → List Network → List RefreshError
  failures url [] = []
  failures url (net ∷ nets) = failed_first (fetch_set jwk net url) (failures url nets)

  -- After any ticks the keys are the latest set that could be fetched, or the first ones if none
  -- could; each failed fetch is logged, in order, and nothing else is; the URL stays.
  pub refresh_loop_lem :
      (wakes : List Wake) (ks : KeySet K)
      → refresh_loop jwk wakes ks ≡ (
        record { url = ks.url; keys = latest ks.url (ticks wakes) ks.keys },
        failures ks.url (ticks wakes),
      )
  unfolding refresh_loop refresh
  refresh_loop_lem [] ks = refl
  refresh_loop_lem (done ∷ wakes) ks = refl
  refresh_loop_lem (tick net ∷ wakes) ks = rw (
    adopt-keys ks (fetch_set jwk net ks.url),
    warned-adopt ks (fetch_set jwk net ks.url),
    refresh_loop_lem wakes (record ks { keys = newer (fetch_set jwk net ks.url) ks.keys }),
  )

  refresh_loop-IsServing :
      (wakes : List Wake) (ks : KeySet K)
      → IsServing jwk ks
      → IsServing jwk (refresh_loop jwk wakes ks).0
  unfolding refresh_loop
  refresh_loop-IsServing [] ks s = s
  refresh_loop-IsServing (done ∷ wakes) ks s = s
  refresh_loop-IsServing (tick net ∷ wakes) ks s =
      refresh_loop-IsServing wakes (refresh jwk ks net).1 (refresh-IsServing jwk ks net s)

  -- From the startup on there are always keys, whatever the network answers and how often.
  pub new_key_set-IsServing :
      (net : Network) (url : Bytes) (ks : KeySet K) (wakes : List Wake)
      → new_key_set jwk net url ≡ ok ks
      → IsServing jwk (refresh_loop jwk wakes ks).0
  new_key_set-IsServing net url ks wakes h =
      refresh_loop-IsServing wakes ks (new_key_set_ok jwk net url ks h).2
