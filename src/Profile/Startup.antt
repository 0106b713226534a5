-- ===== src/Profile/Startup.antt =====
-- What a verifier that starts has established, and what holds of every call to it from then on.
use gateway_auth.Prelude.{
  ◌≡◌, ◌≢◌, refl, ap, ◌∙◌, [], some, Result, ok, err, >>=-eq-ok, map_err-eq-ok, Bool-cases, inl,
  inr, is_empty, ne-nil_of_is_empty, arith, Bool, true, false, ◌∷◌, Option, none, ◌⊎◌,
  is_empty-false, subst, sym,
}
use gateway_auth.Text.{Bytes}
use gateway_auth.Identity.{Identity, Headers}
use gateway_auth.Source.{TokenSource, default_source}
use gateway_auth.Claims.{Token}
use gateway_auth.Http.{Network}
use gateway_auth.KeySet.{Jwk, KeySet}
use gateway_auth.KeySet.Refresh.{Fetches, new_key_set_ok, new_key_set_of}
use gateway_auth.Discovery.{Endpoints, Decoder}
use gateway_auth.Discovery.Laws.{Declares, discover_iff}
use gateway_auth.Verifier.{Verifier, World, Env, options, authenticate}
use gateway_auth.Verifier.Outcome.{RestsOn, authenticate_sound}
use gateway_auth.Verifier.State.{AreFetched, Reach, Reach-AreFetched}
use gateway_auth.Profile.{
  Config, StartError, discovery, keys, issuer_required, verifier_of, connect, new_verifier,
  source_of, fetcher_of,
}

module _ {K : Type 0} (jwk : Jwk K) (decode : Decoder) where
  -- The userinfo fallback is on exactly if it was asked for and the document declares an endpoint.
  abbrev pub Fallback : Bool → Bytes → Option Bytes → Type 0
  Fallback wanted uri fetcher =
      ((wanted ≡ true) × (uri ≢ []) × (fetcher ≡ some uri))
      ⊎ (((wanted ≡ false) ⊎ (uri ≡ [])) × (fetcher ≡ none))

  -- The source is the configured one, or the default one where none is configured.
  abbrev pub Chosen : Option TokenSource → TokenSource → Type 0
  Chosen given source = (given ≡ some source) ⊎ ((given ≡ none) × (source ≡ default_source))

  -- What a start has established.
  pub record Started (net keys_net : Network) (cfg : Config) (v : Verifier) (w : World K)
      : Type 0 where
    pub issuer_given : cfg.issuer ≢ []
    pub found : Endpoints
    pub declared : Declares decode net cfg.issuer found
    pub chosen : Chosen cfg.source v.source
    pub mapper : v.mapper ≡ cfg.claims
    pub same_issuer : v.issuer ≡ cfg.issuer
    pub audience : v.audience ≡ cfg.audience
    pub display_cookie : v.display_cookie ≡ cfg.display_cookie
    pub fallback : Fallback cfg.userinfo_fallback found.userinfo_uri v.userinfo
    pub set : K
    pub fetched : Fetches jwk keys_net found.jwks_uri set
    pub initial : w ≡ record {
      key_set = record { url = found.jwks_uri; keys = some set };
      cache = [];
      log = [];
    }

  fetcher_of-Fallback : (wanted : Bool) (uri : Bytes) → Fallback wanted uri (fetcher_of wanted uri)
  fetcher_of-Fallback false uri = inr (inl refl, refl)
  fetcher_of-Fallback true [] = inr (inr refl, refl)
  fetcher_of-Fallback true (c ∷ uri) = inl (refl, (λ e. cc), refl)

  source_of-Chosen : (given : Option TokenSource) → Chosen given (source_of given)
  source_of-Chosen none = inr (refl, refl)
  source_of-Chosen (some s) = inl refl

  connect-Started :
      (net keys_net : Network) (cfg : Config) (v : Verifier) (w : World K)
      → cfg.issuer ≢ []
      → connect jwk decode net keys_net cfg ≡ ok (v, w)
      → Started net keys_net cfg v w
  unfolding connect verifier_of
  connect-Started net keys_net cfg v w ne h =
      let (found, d, k) = >>=-eq-ok _ _ h in
      let (ks, n, l) = >>=-eq-ok _ _ k in
      let (u, (set, f, s), _) =
        new_key_set_ok jwk keys_net found.jwks_uri ks (map_err-eq-ok keys _ n) in
      record {
        issuer_given = ne;
        found = found;
        declared = (discover_iff decode net cfg.issuer found).0 (map_err-eq-ok discovery _ d);
        chosen =
            subst (λ z. Chosen cfg.source z.source) (sym (parts l).0) (source_of-Chosen cfg.source);
        mapper = ap (λ z. z.mapper) (parts l).0;
        same_issuer = ap (λ z. z.issuer) (parts l).0;
        audience = ap (λ z. z.audience) (parts l).0;
        display_cookie = ap (λ z. z.display_cookie) (parts l).0;
        fallback =
            subst (λ z. Fallback cfg.userinfo_fallback found.userinfo_uri z.userinfo)
              (sym (parts l).0) (fetcher_of-Fallback cfg.userinfo_fallback found.userinfo_uri);
        set = set;
        fetched = f;
        initial = (parts l).1 ∙ world u s;
      }
    where
      parts :
          {a : Verifier} {b : World K}
          → ◌≡◌ {A = Result StartError (Verifier × World K)} (ok (a, b)) (ok (v, w))
          → (v ≡ a) × (w ≡ b)
      parts e = ground arith

      world :
          {ks : KeySet K} {url : Bytes} {set : K}
          → ks.url ≡ url
          → ks.keys ≡ some set
          → ◌≡◌ {A = World K}
              (record { key_set = ks; cache = []; log = [] })
              (record { key_set = record { url = url; keys = some set }; cache = []; log = [] })
      world u s = λ i. record { key_set = record { url = u i; keys = s i }; cache = []; log = [] }

  -- `NewVerifier` succeeds only with an issuer, whose own document declares that issuer and a URL for
  -- keys, and with a set of keys from there that is not empty; the verifier is configured as asked, with
  -- the default source where none was given, and its userinfo fallback is on exactly if asked for and
  -- declared.
  pub new_verifier-Started :
      (net keys_net : Network) (cfg : Config) (v : Verifier) (w : World K)
      → new_verifier jwk decode net keys_net cfg ≡ ok (v, w)
      → Started net keys_net cfg v w
  unfolding new_verifier
  new_verifier-Started net keys_net cfg v w h = elim (Bool-cases (is_empty cfg.issuer)) [
    | inl e ↦
        let no : ◌≡◌ {A = Result StartError (Verifier × World K)} (err issuer_required)
            (ok (v, w)) =
          rw e at h in
        cc
    | inr e ↦ connect-Started net keys_net cfg v w (ne-nil_of_is_empty cfg.issuer e) (rw e at h)
  ]

  new_verifier_run :
      (net keys_net : Network) (cfg : Config) (found : Endpoints) (set : K)
      → cfg.issuer ≢ []
      → Declares decode net cfg.issuer found
      → Fetches jwk keys_net found.jwks_uri set
      → new_verifier jwk decode net keys_net cfg
        ≡ ok (
          verifier_of cfg found,
          record {
            key_set = record { url = found.jwks_uri; keys = some set };
            cache = [];
            log = [];
          },
        )
  unfolding new_verifier connect
  new_verifier_run net keys_net cfg found set ne d f =
      rw
        (
          is_empty-false cfg.issuer ne,
          (discover_iff decode net cfg.issuer found).1 d,
          new_key_set_of jwk keys_net found.jwks_uri set f,
        )
        refl

  -- `NewVerifier` does succeed: with an issuer that is not empty, whose document declares it and a URL
  -- that delivers a set with a key, a verifier starts, and the start has established all that
  -- `Started` lists.
  pub new_verifier_starts :
      (net keys_net : Network) (cfg : Config) (found : Endpoints) (set : K)
      → cfg.issuer ≢ []
      → Declares decode net cfg.issuer found
      → Fetches jwk keys_net found.jwks_uri set
      → (v : Verifier) × (w : World K) × (new_verifier jwk decode net keys_net cfg ≡ ok (v, w))
        × Started net keys_net cfg v w
  new_verifier_starts net keys_net cfg found set ne d f =
      let run = new_verifier_run net keys_net cfg found set ne d f in
      (_, _, run, new_verifier-Started net keys_net cfg _ _ run)

  -- However long a started verifier has served, and whatever refreshes and requests it met, a call that
  -- succeeds was accepted by jwx for the configured issuer, under a set of keys that is not empty and
  -- that the URL in the issuer's own document delivered.
  pub always_verified :
      (net keys_net : Network) (cfg : Config) (v : Verifier) (w w' : World K) (env : Env K)
      (h : Headers) (i : Identity)
      → new_verifier jwk decode net keys_net cfg ≡ ok (v, w)
      → Reach jwk v w w'
      → (authenticate env v h w').0 ≡ ok i
      → (found : Endpoints) × Declares decode net cfg.issuer found
        × ((set : K) × (then_net : Network) × ((options env v w').keys ≡ some set)
            × Fetches jwk then_net found.jwks_uri set)
        × ((options env v w').issuer ≡ cfg.issuer)
        × ((raw : Bytes) × (t : Token) × RestsOn env v h w' i raw t)
  unfolding options
  always_verified net keys_net cfg v w w' env h i start run good =
      let s = new_verifier-Started net keys_net cfg v w start in
      let first : AreFetched jwk s.found.jwks_uri w.key_set =
        rw s.initial (refl, (s.set, keys_net, refl, s.fetched)) in
      let (_, (set, then_net, k, f)) = Reach-AreFetched jwk s.found.jwks_uri v first run in
      (
        s.found,
        s.declared,
        (set, then_net, k, f),
        s.same_issuer,
        authenticate_sound env v h w' i good,
      )
