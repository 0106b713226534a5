-- ===== src/KeySet/Refresh.antt =====
-- When `refresh` replaces the key set.
use gateway_auth.Prelude.{
  ◌≡◌, ◌≢◌, refl, ap, ◌↔◌, ◌⊎◌, inl, inr, none, some, Result, ok, err, arith, if◌then◌else◌, ◌==◌,
  >>=-eq-ok, map_err-eq-ok, Bool-cases, Result-cases,
}
use gateway_auth.Text.{Bytes}
use gateway_auth.Http.{
  Body, not_built, failed, answered, Network, Exchange, status_ok, read_limited,
}
use gateway_auth.KeySet.{
  Jwk, KeySet, RefreshError, receive_set, key_set_max_bytes, read_set, fetch_set, refresh,
  new_key_set, no_keys, read_body, parse_set, adopt,
}

module _ {K : Type 0} (jwk : Jwk K) where
  -- The body, cut at the limit, is read without an error and parsed, and the set has a key.
  pub record Reads (body : Body) (set : K) : Type 0 where
    pub bytes : Bytes
    pub whole : read_limited key_set_max_bytes body ≡ ok bytes
    pub parsed : jwk.parse bytes ≡ ok set
    pub has_keys : jwk.len set ≢ 0

  read_set-Reads : (body : Body) (set : K) → read_set jwk body ≡ ok set → Reads body set
  unfolding read_set
  read_set-Reads body set h =
      let (bytes, e, k) = >>=-eq-ok _ _ h in
      let (found, f, l) = >>=-eq-ok _ _ k in
      let (positive, same_set) = kept found l in
      record {
        bytes = bytes;
        whole = map_err-eq-ok read_body _ e;
        parsed = rw (← same_set) (map_err-eq-ok parse_set _ f);
        has_keys = rw (← same_set) positive;
      }
    where
      kept :
          (found : K)
          → (if jwk.len found == 0 then err no_keys else ok found) ≡ ok set
          → (jwk.len found ≢ 0) × (found ≡ set)
      kept found l = ground arith

  Reads-read_set : (body : Body) (set : K) → Reads body set → read_set jwk body ≡ ok set
  unfolding read_set
  Reads-read_set body set r = rw (r.whole, r.parsed) (ground (arith, r.has_keys))

  -- The key set's URL answers with status 200 and a body that holds the set.
  abbrev pub Fetches : Network → Bytes → K → Type 0
  Fetches net url set =
      (body : Body) × (net (record { url = url; authorization = none }) ≡ answered status_ok body)
      × Reads body set

  receive_set_sound :
      (x : Exchange) (set : K)
      → receive_set jwk x ≡ ok set
      → (body : Body) × (x ≡ answered status_ok body) × Reads body set
  unfolding receive_set
  receive_set_sound (not_built e) set h = cc
  receive_set_sound (failed e) set h = cc
  receive_set_sound (answered status body) set h = elim (Bool-cases (status == status_ok)) [
    | inl e ↦
        let is_ok : status ≡ status_ok = ground arith in
        (body, ap (λ s. answered s body) is_ok, read_set-Reads body set (ground arith))
    | inr e ↦ ground arith
  ]

  -- `refresh` fetches a set exactly when the URL answers with status 200 and a body that, cut at the
  -- limit, parses to that set, and the set has a key.
  pub fetch_set_iff :
      (net : Network) (url : Bytes) (set : K)
      → (fetch_set jwk net url ≡ ok set) ↔ Fetches net url set
  unfolding fetch_set
  fetch_set_iff net url set = (
    receive_set_sound (net (record { url = url; authorization = none })) set,
    λ (body, e, r). rw e (Reads-read_set body set r),
  )

  -- A key set that can verify something.
  abbrev pub IsServing : KeySet K → Type 0
  IsServing ks = (set : K) × (ks.keys ≡ some set) × (jwk.len set ≢ 0)

  -- A refresh that fails leaves the key set as it was; one that succeeds puts the fetched set in its
  -- place, which has a key, and keeps the URL.
  pub refresh_cases :
      (ks : KeySet K) (net : Network)
      → ((e : RefreshError) × (fetch_set jwk net ks.url ≡ err e)
          × (refresh jwk ks net ≡ (err e, ks)))
        ⊎ ((set : K) × Fetches net ks.url set
            × (refresh jwk ks net ≡ (ok tt, record ks { keys = some set })))
  unfolding refresh
  refresh_cases ks net = elim (Result-cases (fetch_set jwk net ks.url)) [
    | inl (set, e) ↦ inr (set, (fetch_set_iff net ks.url set).0 e, rw e refl)
    | inr (x, e) ↦ inl (x, e, rw e refl)
  ]

  pub new_key_set_of :
      (net : Network) (url : Bytes) (set : K)
      → Fetches net url set
      → new_key_set jwk net url ≡ ok (record { url = url; keys = some set })
  unfolding new_key_set refresh
  new_key_set_of net url set f = rw ((fetch_set_iff net url set).1 f) refl

  pub refresh-IsServing :
      (ks : KeySet K) (net : Network) → IsServing ks → IsServing (refresh jwk ks net).1
  refresh-IsServing ks net s = elim (refresh_cases ks net) [
    | inl (x, _, e) ↦ rw e s
    | inr (set, (body, _, r), e) ↦ rw e (set, refl, r.has_keys)
  ]

  -- `newKeySet` returns a key set only with the keys that it fetched, and there is at least one.
  pub new_key_set_ok :
      (net : Network) (url : Bytes) (ks : KeySet K)
      → new_key_set jwk net url ≡ ok ks
      → (ks.url ≡ url) × ((set : K) × Fetches net url set × (ks.keys ≡ some set)) × IsServing ks
  unfolding new_key_set
  new_key_set_ok net url ks h = elim (refresh_cases (record { url = url; keys = none }) net) [
    | inl (x, _, e) ↦
        let no : ◌≡◌ {A = Result RefreshError (KeySet K)} (err x) (ok ks) = ground arith in cc
    | inr (set, f, e) ↦
        let made : record { url = url; keys = some set } ≡ ks = ground arith in
        rw (← made) (refl, (set, f, refl), (set, refl, f.2.has_keys))
  ]

adopt-url : {K : Type 0} (ks : KeySet K) (r : Result RefreshError K) → (adopt ks r).1.url ≡ ks.url
unfolding adopt
adopt-url ks (ok set) = refl
adopt-url ks (err e) = refl

-- A refresh never changes the URL; one that fetches a set holds it, and one that fails holds what was
-- there.
pub refresh-url :
    {K : Type 0} (jwk : Jwk K) (ks : KeySet K) (net : Network) → (refresh jwk ks net).1.url ≡ ks.url
unfolding refresh
refresh-url jwk ks net = adopt-url ks (fetch_set jwk net ks.url)

pub refresh-fetched :
    {K : Type 0} (jwk : Jwk K) (ks : KeySet K) (net : Network) (set : K)
    → fetch_set jwk net ks.url ≡ ok set
    → (refresh jwk ks net).1.keys ≡ some set
unfolding refresh adopt
refresh-fetched jwk ks net set e = rw e refl

pub refresh-failed :
    {K : Type 0} (jwk : Jwk K) (ks : KeySet K) (net : Network) (e : RefreshError)
    → fetch_set jwk net ks.url ≡ err e
    → (refresh jwk ks net).1 ≡ ks
unfolding refresh adopt
refresh-failed jwk ks net e h = rw h refl
