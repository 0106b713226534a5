-- ===== src/Ts/Startup/Laws.antt =====
-- What a verifier of the port rests on.
use gateway_auth.Prelude.{
  ◌≡◌, ◌≢◌, refl, ◌↔◌, Bool, true, false, [], none, Result, ok, map_err, >>=-eq-ok, map_err-eq-ok,
  is_empty, is_empty-false, ne-nil_of_is_empty, Bool-cases, inl, inr, arith,
}
use gateway_auth.Ts.Strings.{Units}
use gateway_auth.Ts.Discovery.{Endpoints, Fetch, discover}
use gateway_auth.Ts.Discovery.Laws.{Declares, discover_iff}
use gateway_auth.Ts.Verifier.{Verifier}
use gateway_auth.Ts.Startup.{
  CreateVerifierOptions, KeyResolver, remote, StartError, discovery, endpoints_of, keys_of,
  verifier_of, create_verifier,
}

module _ (lower_other : Units → Units) (valid : Units → Bool) (fetch : Fetch)
    (opts : CreateVerifierOptions) (v : Verifier) (k : KeyResolver) where
  -- The issuer is given, its own document declares it and a URL for its keys, and the verifier insists
  -- on that issuer and takes its keys from that URL.
  abbrev pub Started : Type 0
  Started =
      (opts.issuer ≢ [])
      × (found : Endpoints) × Declares fetch opts.issuer found
      × (valid found.jwks_uri ≡ true)
      × (k ≡ remote found.jwks_uri)
      × (v ≡ verifier_of lower_other valid fetch opts found)

  keys_of-remote :
      (uri : Units)
      → keys_of lower_other valid fetch false uri ≡ ok k
      → (valid uri ≡ true) × (k ≡ remote uri)
  keys_of-remote uri h = elim (Bool-cases (valid uri)) [
    | inl e ↦ (e, ground arith)
    | inr e ↦ ground arith
  ]

  -- With no key resolver and no endpoints given, `createVerifier` gives a verifier exactly when the
  -- issuer is given, the document at its well-known URL declares it and a valid URL for its keys; the
  -- verifier then takes its keys from that URL.
  pub create_verifier_iff :
      opts.jwks ≡ false
      → opts.endpoints ≡ none
      → (create_verifier lower_other valid fetch opts ≡ ok (v, k)) ↔ Started
  unfolding create_verifier
  create_verifier_iff no_keys no_endpoints = (sound, complete)
    where
      parts :
          {a : Verifier} {b : KeyResolver}
          → ◌≡◌ {A = Result StartError (Verifier × KeyResolver)} (ok (a, b)) (ok (v, k))
          → (v ≡ a) × (k ≡ b)
      parts e = ground arith

      discovered :
          (found : Endpoints)
          → endpoints_of lower_other valid fetch opts.issuer opts.jwks opts.endpoints ≡ ok found
          → map_err discovery (discover fetch opts.issuer) ≡ ok found
      discovered found e = rw (no_keys, no_endpoints) at e

      chosen :
          (uri : Units) (keys : KeyResolver)
          → keys_of lower_other valid fetch opts.jwks uri ≡ ok keys
          → k ≡ keys
          → keys_of lower_other valid fetch false uri ≡ ok k
      chosen uri keys e q = rw q (rw no_keys at e)

      sound : create_verifier lower_other valid fetch opts ≡ ok (v, k) → Started
      sound h = elim (Bool-cases (is_empty opts.issuer)) [
        | inl missing ↦ ground arith
        | inr here ↦
            let (found, e, c) = >>=-eq-ok _ _ (rw here at h) in
            let (keys, f, l) = >>=-eq-ok _ _ c in
            let (u, m) = keys_of-remote found.jwks_uri (chosen found.jwks_uri keys f (parts l).1) in
            (
              ne-nil_of_is_empty opts.issuer here,
              found,
              (discover_iff fetch opts.issuer found).0
                  (map_err-eq-ok discovery _ (discovered found e)),
              u,
              m,
              (parts l).0,
            )
      ]

      complete : Started → create_verifier lower_other valid fetch opts ≡ ok (v, k)
      complete (ne, found, d, u, m, n) =
          rw
            (
              is_empty-false opts.issuer ne,
              no_endpoints,
              no_keys,
              (discover_iff fetch opts.issuer found).1 d,
              u,
              m,
              n,
            )
            refl
