-- ===== src/Verifier/Outcome.antt =====
-- What `Authenticate` returns, on every path, and what an accepted call rests on.
use gateway_auth.Prelude.{◌≡◌, refl, [], ◌∷◌, ◌++◌, Option, none, some, Result, ok, err, arith}
use gateway_auth.Text.{Bytes}
use gateway_auth.Identity.{Identity, Headers, no_credential, invalid_token, AuthResult}
use gateway_auth.Source.{token}
use gateway_auth.Claims.{Token, identity}
use gateway_auth.Userinfo.Fill.{shown}
use gateway_auth.Verifier.{
  Verifier, World, Env, token_rejected, options, parse, accept, check, authenticate,
}
use gateway_auth.Verifier.Display.{
  Origin, own, cookie, cached_entry, endpoint, Extends, display-Origin,
}

module _ {K : Type 0} (env : Env K) (v : Verifier) (h : Headers) (w : World K) where
  -- The three outcomes of a call, each with the state that it leaves.
  pub data Verdict (r : AuthResult × World K) : Type 0 where
    missing : token v.source h ≡ none → r ≡ (err no_credential, w) → Verdict r
    rejected :
        (raw reason : Bytes)
        → token v.source h ≡ some raw
        → env.parse_string raw (options env v w) ≡ err reason
        → r ≡ (err invalid_token, record w { log = w.log ++ token_rejected reason ∷ [] })
        → Verdict r
    accepted :
        (raw : Bytes) (t : Token) (i : Identity)
        → token v.source h ≡ some raw
        → env.parse_string raw (options env v w) ≡ ok t
        → r.0 ≡ ok i
        → Origin env v h raw w (identity v.mapper t raw) i
        → Extends w r.1
        → Verdict r

  accept-Verdict :
      (raw : Bytes) (p : Result Bytes Token)
      → token v.source h ≡ some raw
      → env.parse_string raw (options env v w) ≡ p
      → Verdict (accept env v h raw w p)
  accept-Verdict raw (err e) q f = rejected raw e q f refl
  accept-Verdict raw (ok t) q f =
      let (_, o, x) = display-Origin env v h raw w (identity v.mapper t raw) in
      accepted raw t _ q f refl o x

  check-Verdict : (o : Option Bytes) → token v.source h ≡ o → Verdict (check env v h w o)
  unfolding parse
  check-Verdict none q = missing q refl
  check-Verdict (some raw) q = accept-Verdict raw (env.parse_string raw (options env v w)) q refl

  -- With no token the call fails as `ErrNoCredential` and changes nothing. With a token that is not
  -- accepted it fails as `ErrInvalidToken`, whatever the reason, which goes to the log alone; caches and
  -- keys stay. With one that is accepted it succeeds, with the identity that the mapper reads off that
  -- token, but for a name and an email that a fallback gave; the keys stay and the log only grows.
  pub authenticate-Verdict : Verdict (authenticate env v h w)
  unfolding authenticate
  authenticate-Verdict = check-Verdict (token v.source h) refl

  Origin-shown :
      {raw : Bytes} {i j : Identity} → Origin env v h raw w i j → (n m : Bytes) × (j ≡ shown i n m)
  Origin-shown {i} (own e) = (i.name, i.email, e)
  Origin-shown (cookie t _ _ e) = (_, _, e)
  Origin-shown (cached_entry u x _ _ _ _ e) = (_, _, e)
  Origin-shown (endpoint u a _ _ _ e) = (_, _, e)

  -- What a successful call rests on.
  abbrev pub RestsOn : Identity → Bytes → Token → Type 0
  RestsOn i raw t =
      (token v.source h ≡ some raw)
      × (env.parse_string raw (options env v w) ≡ ok t)
      × ((n m : Bytes) × (i ≡ shown (identity v.mapper t raw) n m))

  ok_of_Verdict :
      {r : AuthResult × World K} (i : Identity)
      → Verdict r
      → r.0 ≡ ok i
      → (raw : Bytes) × (t : Token) × RestsOn i raw t
  ok_of_Verdict i (missing q e) s = ground arith
  ok_of_Verdict i (rejected raw x q p e) s = ground arith
  ok_of_Verdict i (accepted raw t j q p e o x) s =
      let same_identity : j ≡ i = ground arith in
      (raw, t, (q, p, rw (← same_identity) (Origin-shown o)))

  -- The subject, roles, token and claims of an authenticated caller are those of a token that the source
  -- found and jwx accepted, under the keys held then, the configured issuer and audience; no fallback
  -- touches them.
  pub authenticate_sound :
      (i : Identity)
      → (authenticate env v h w).0 ≡ ok i
      → (raw : Bytes) × (t : Token) × RestsOn i raw t
  authenticate_sound i e = ok_of_Verdict i authenticate-Verdict e
