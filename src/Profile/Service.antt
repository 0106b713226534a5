-- ===== src/Profile/Service.antt =====
-- A started verifier at work, over every schedule of requests, moves and refreshes.
use gateway_auth.Prelude.{
  ℕ, ◌≡◌, refl, sym, subst, ◌⊎◌, inl, inr, true, List, [], Option, ok, Any, All-Any,
  All-Any_converse,
}
use gateway_auth.Text.{Bytes}
use gateway_auth.Identity.{Headers, AuthResult}
use gateway_auth.Http.{Network}
use gateway_auth.KeySet.{Jwk}
use gateway_auth.Userinfo.{lookup}
use gateway_auth.Discovery.{Endpoints, Decoder}
use gateway_auth.Discovery.Laws.{Declares}
use gateway_auth.Verifier.{Verifier, World, options_for}
use gateway_auth.Verifier.Overlap.{ended, System, Action, arrives, moves, ticks, run}
use gateway_auth.Verifier.Overlap.Rests.{Setting, IsRight, IsSound}
use gateway_auth.Verifier.Overlap.Safety.{Meets, Inv, run-Inv}
use gateway_auth.Profile.{Config, new_verifier}
use gateway_auth.Profile.Startup.{Started, new_verifier-Started}

module _ {K : Type 0} (jwk : Jwk K) (decode : Decoder) where
  -- The networks that the fetches of the keys met are that of the start and those of the ticks; the
  -- calls met what their moves did.
  abbrev pub history : Verifier → Bytes → Network → List (Action K) → Setting K
  history v url keys_net acts = record {
    jwk = jwk;
    verifier = v;
    url = url;
    ticked = λ net. (net ≡ keys_net) ⊎ Any (λ a. a ≡ ticks net) acts;
    met = λ env. (n : ℕ) × Any (λ a. a ≡ moves n env) acts;
  }

  abbrev pub started_system : World K → System K
  started_system w = record { world = w; calls = [] }

  met_by :
      (v : Verifier) (url : Bytes) (keys_net : Network) (acts : List (Action K)) (a : Action K)
      → Any (λ b. b ≡ a) acts
      → Meets (history v url keys_net acts) a
  met_by v url keys_net acts (arrives h) m = tt
  met_by v url keys_net acts (moves n env) m = (n, m)
  met_by v url keys_net acts (ticks net) m = inr m

  start-IsSound :
      (net keys_net : Network) (cfg : Config) (v : Verifier) (w : World K) (acts : List (Action K))
      → (s : Started jwk decode net keys_net cfg v w)
      → IsSound (history v s.found.jwks_uri keys_net acts) w
  unfolding lookup
  start-IsSound net keys_net cfg v w acts s =
      subst (IsSound (history v s.found.jwks_uri keys_net acts)) (sym s.initial) (record {
        url_kept = refl;
        held = (s.set, refl, (keys_net, inl refl, s.fetched));
        given = λ subject e q. cc;
      })

  -- Whatever requests a started verifier has served, and however their calls and the refreshes of
  -- the keys overlapped: every parse asks jwx to validate the token and to insist on the configured
  -- issuer. A call that gave an identity found a token that jwx so accepted under a set of keys,
  -- not empty, that the URL in the issuer's own document delivered at the start or at a tick; the
  -- identity is the one that the mapper reads off that token, but for a name and an email that a
  -- cookie so accepted gave for the same subject, or the endpoint about the subject to an accepted
  -- token of the subject. A call that gave none found no token and failed as `ErrNoCredential`, or
  -- found one that jwx rejected and failed as `ErrInvalidToken`.
  pub calls_rest :
      (net keys_net : Network) (cfg : Config) (v : Verifier) (w : World K) (acts : List (Action K))
      (h : Headers) (r : AuthResult)
      → new_verifier jwk decode net keys_net cfg ≡ ok (v, w)
      → Any (λ c. c ≡ (h, ended r)) (run jwk v acts (started_system w)).calls
      → (found : Endpoints) × Declares decode net cfg.issuer found
        × ((keys : Option K)
            → ((options_for v keys).issuer ≡ cfg.issuer) × ((options_for v keys).validate ≡ true))
        × IsRight (history v found.jwks_uri keys_net acts) h (ended r)
  calls_rest net keys_net cfg v w acts h r start over =
      let s = new_verifier-Started jwk decode net keys_net cfg v w start in
      let st : Setting K = history v s.found.jwks_uri keys_net acts in
      let i : Inv st (run jwk v acts (started_system w)) =
        run-Inv st acts (started_system w)
          (All-Any_converse (Meets st) acts (met_by v s.found.jwks_uri keys_net acts))
          (record { sound = start-IsSound net keys_net cfg v w acts s; right = tt }) in
      (
        s.found,
        s.declared,
        (λ keys. (s.same_issuer, refl)),
        All-Any (λ c. c ≡ (h, ended r)) (λ c. IsRight st c.0 c.1) (IsRight st h (ended r))
            (λ c e q. subst (λ z. IsRight st z.0 z.1) e q) _ over i.right,
      )
