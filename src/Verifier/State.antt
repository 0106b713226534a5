-- ===== src/Verifier/State.antt =====
-- The verifier at work: requests and refreshes of the keys, in any order.
use gateway_auth.Prelude.{◌≡◌, refl, ap, ◌∙◌, sym, inl, inr, [], ◌∷◌, ◌++◌, some, map, subst}
use gateway_auth.Text.{Bytes}
use gateway_auth.Identity.{Headers, AuthResult}
use gateway_auth.Http.{Network}
use gateway_auth.KeySet.{Jwk, KeySet, refresh, warned}
use gateway_auth.KeySet.Refresh.{Fetches, refresh_cases}
use gateway_auth.Verifier.{Verifier, World, Env, refresh_failed, token_rejected, authenticate}
use gateway_auth.Verifier.Display.{Extends, Extends-refl}
use gateway_auth.Verifier.Outcome.{Verdict, missing, rejected, accepted, authenticate-Verdict}

module _ {K : Type 0} (jwk : Jwk K) where
  -- A tick of `refreshLoop`.
  unfoldable pub tick_world : Network → World K → World K
  tick_world net w =
      let (result, ks) = refresh jwk w.key_set net in
      record w { key_set = ks; log = w.log ++ map refresh_failed (warned result []) }

  pub data Step (v : Verifier) (w w' : World K) : Type 0 where
    request : (env : Env K) (h : Headers) → w' ≡ (authenticate env v h w).1 → Step v w w'
    ticks : (net : Network) → w' ≡ tick_world net w → Step v w w'

  pub data Reach (v : Verifier) (w : World K) : World K → Type 0 where
    here : Reach v w w
    next : {u u' : World K} → Reach v w u → Step v u u' → Reach v w u'

  -- The keys are a set, not empty, that the URL delivered.
  abbrev pub AreFetched : Bytes → KeySet K → Type 0
  AreFetched url ks =
      (ks.url ≡ url)
      × ((set : K) × (net : Network) × (ks.keys ≡ some set) × Fetches jwk net url set)

  authenticate-Extends :
      (env : Env K) (v : Verifier) (h : Headers) (w : World K)
      → Extends w (authenticate env v h w).1
  authenticate-Extends env v h w = by_verdict (authenticate-Verdict env v h w)
    where
      by_verdict : {r : AuthResult × World K} → Verdict env v h w r → Extends w r.1
      by_verdict (missing q e) = rw e (Extends-refl w)
      by_verdict (rejected raw x q p e) =
          rw e (record { keys_kept = refl; added = token_rejected x ∷ []; logged = refl })
      by_verdict (accepted raw t i q p e o x) = x

  tick_world-AreFetched :
      (url : Bytes) (net : Network) (w : World K)
      → AreFetched url w.key_set
      → AreFetched url (tick_world net w).key_set
  unfolding tick_world
  tick_world-AreFetched url net w (u, f) = elim (refresh_cases jwk w.key_set net) [
    | inl (x, _, e) ↦ rw e (u, f)
    | inr (set, f', e) ↦ rw e (u, (set, net, refl, subst (λ b. Fetches jwk net b set) u f'))
  ]

  Step-AreFetched :
      (url : Bytes) (v : Verifier) (w w' : World K)
      → Step v w w'
      → AreFetched url w.key_set
      → AreFetched url w'.key_set
  Step-AreFetched url v w w' (request env h e) f =
      let x = authenticate-Extends env v h w in
      subst (AreFetched url) (sym (ap (λ z. z.key_set) e ∙ x.keys_kept)) f
  Step-AreFetched url v w w' (ticks net e) f = rw e (tick_world-AreFetched url net w f)

  -- Requests and refreshes, in any order and whatever they meet, leave keys that are not empty and that
  -- the key set's URL delivered.
  pub Reach-AreFetched :
      (url : Bytes) (v : Verifier) {w w' : World K}
      → AreFetched url w.key_set
      → Reach v w w'
      → AreFetched url w'.key_set
  Reach-AreFetched url v f here = f
  Reach-AreFetched url v f (next {u} {u'} r s) =
      Step-AreFetched url v u u' s (Reach-AreFetched url v f r)
