-- ===== src/Ts/Verifier/Laws.antt =====
-- What the port's verifier answers.
use gateway_auth.Prelude.{
  ◌≡◌, refl, inl, inr, true, ◌++◌, Option, none, some, Result, ok, err, Bool-cases, ℕ,
}
use gateway_auth.Text.{codes}
use gateway_auth.Ts.Strings.{Units, or_blank}
use gateway_auth.Ts.Source.{Headers}
use gateway_auth.Ts.Identity.{Identity, Payload, Rejection, no_credential, invalid_token, thrown}
use gateway_auth.Ts.Claims.{identity_from_claims}
use gateway_auth.Ts.Userinfo.{
  Entry, Cache, null, members, Response, failed, answered, is_ok, is_about, fresh, get, use_body,
  use_response, use_entry, fill, Filled,
}
use gateway_auth.Ts.Verifier.{
  Verifier, World, Env, options, is_nameless, after_fill, ask_userinfo, accept, check, authenticate,
}

-- The identity, but for the name and the email.
abbrev pub Named : Identity → Identity → Type 0
Named i j = (n m : Units) × (j ≡ record i { name = n; email = m })

module _ (env : Env) (v : Verifier) (headers : Headers) (w : World) where
  -- The four outcomes of a call.
  pub data Resolution (r : Result Rejection Identity) : Type 0 where
    missing : v.source headers ≡ none → r ≡ err no_credential → Resolution r
    rejected :
        (raw reason : Units)
        → v.source headers ≡ some raw
        → env.jwt_verify raw (options v) ≡ err reason
        → r ≡ err invalid_token
        → Resolution r
    accepted :
        (raw : Units) (payload : Payload) (i : Identity)
        → v.source headers ≡ some raw
        → env.jwt_verify raw (options v) ≡ ok payload
        → r ≡ ok i
        → Named (identity_from_claims v.mapper payload raw) i
        → Resolution r
    lost :
        (raw uri reason : Units) (payload : Payload) (status : ℕ)
        → v.source headers ≡ some raw
        → env.jwt_verify raw (options v) ≡ ok payload
        → is_nameless (identity_from_claims v.mapper payload raw) ≡ true
        → v.userinfo ≡ some uri
        → env.fetch uri (codes "Bearer " ++ raw) ≡ answered status (ok null)
        → r ≡ err (thrown reason)
        → Resolution r

  -- `fill` leaves all but the name and the email, or rejects at a body that is null.
  data Kept (uri raw : Units) (i : Identity) (f : Filled) : Type 0 where
    kept : (j : Identity) → f.result ≡ ok j → Named i j → Kept uri raw i f
    threw :
        (status : ℕ) (reason : Units)
        → env.fetch uri (codes "Bearer " ++ raw) ≡ answered status (ok null)
        → f.result ≡ err reason
        → Kept uri raw i f

  use_response-Kept :
      (uri raw : Units) (i : Identity) (c : Cache) (x : Response)
      → env.fetch uri (codes "Bearer " ++ raw) ≡ x
      → Kept uri raw i (use_response env.later i c x)
  unfolding use_response use_body
  use_response-Kept uri raw i c (failed e) q = kept i refl (i.name, i.email, refl)
  use_response-Kept uri raw i c (answered status (err e)) q = elim (Bool-cases (is_ok status)) [
    | inl f ↦ rw f (kept i refl (i.name, i.email, refl))
    | inr f ↦ rw f (kept i refl (i.name, i.email, refl))
  ]
  use_response-Kept uri raw i c (answered status (ok null)) q = elim (Bool-cases (is_ok status)) [
    | inl f ↦ rw f (threw status _ q refl)
    | inr f ↦ rw f (kept i refl (i.name, i.email, refl))
  ]
  use_response-Kept uri raw i c (answered status (ok (members m))) q =
      elim (Bool-cases (is_ok status)) [
        | inl f ↦ elim (Bool-cases (is_about m.sub i.subject)) [
          | inl g ↦ rw (f, g) (kept _ refl (or_blank m.name, or_blank m.email, refl))
          | inr g ↦ rw (f, g) (kept i refl (i.name, i.email, refl))
        ]
        | inr f ↦ rw f (kept i refl (i.name, i.email, refl))
      ]

  fill-Kept :
      (uri raw : Units) (i : Identity) (c : Cache)
      → Kept uri raw i (fill env.fetch env.now env.later uri raw i c)
  unfolding fill
  fill-Kept uri raw i c = by_entry (fresh env.now (get c i.subject))
    where
      by_entry :
          (o : Option Entry)
          → Kept uri raw i (elim o as (λ _. Filled) [
            | none ↦ use_response env.later i c (env.fetch uri (codes "Bearer " ++ raw))
            | some e ↦ use_entry i c e
          ])
      by_entry none = use_response-Kept uri raw i c _ refl
      by_entry (some e) = kept _ refl (e.name, e.email, refl)

  -- A call fails as a missing credential where the source finds no token, and as an invalid one where
  -- `jwtVerify` rejects the token. Otherwise it gives the identity that the mapper reads off the
  -- payload, but for the name and the email; or, for a payload with neither, it fails for another
  -- reason, and then the userinfo endpoint answered with a body that is `null`.
  pub authenticate-Resolution : Resolution (authenticate env v headers w).0
  unfolding authenticate check accept
  authenticate-Resolution = by_token (v.source headers) refl
    where
      after :
          (raw uri : Units) (payload : Payload)
          → v.source headers ≡ some raw
          → env.jwt_verify raw (options v) ≡ ok payload
          → is_nameless (identity_from_claims v.mapper payload raw) ≡ true
          → v.userinfo ≡ some uri
          → (f : Filled) → Kept uri raw (identity_from_claims v.mapper payload raw) f
          → Resolution (after_fill w f).0
      after raw uri payload q p n u f (kept j e k) = rw e (accepted raw payload j q p refl k)
      after raw uri payload q p n u f (threw status reason x e) =
          rw e (lost raw uri reason payload status q p n u x refl)

      fallback :
          (raw : Units) (payload : Payload) (o : Option Units)
          → v.source headers ≡ some raw
          → env.jwt_verify raw (options v) ≡ ok payload
          → is_nameless (identity_from_claims v.mapper payload raw) ≡ true
          → v.userinfo ≡ o
          → Resolution (ask_userinfo env v raw (identity_from_claims v.mapper payload raw) w o).0
      fallback raw payload none q p n u = accepted raw payload _ q p refl (_, _, refl)
      fallback raw payload (some uri) q p n u =
          after raw uri payload q p n u _ (fill-Kept uri raw _ w.cache)

      verified :
          (raw : Units) (x : Result Units Payload)
          → v.source headers ≡ some raw
          → env.jwt_verify raw (options v) ≡ x
          → Resolution (accept env v raw w x).0
      verified raw (err e) q p = rejected raw e q p refl
      verified raw (ok payload) q p =
          elim (Bool-cases (is_nameless (identity_from_claims v.mapper payload raw))) [
            | inl n ↦ rw n (fallback raw payload v.userinfo q p n refl)
            | inr n ↦ rw n (accepted raw payload _ q p refl (_, _, refl))
          ]

      by_token : (o : Option Units) → v.source headers ≡ o → Resolution (check env v w o).0
      by_token none q = missing q refl
      by_token (some raw) q = verified raw _ q refl

  fill-null :
      (uri raw : Units) (i : Identity) (c : Cache) (status : ℕ)
      → fresh env.now (get c i.subject) ≡ none
      → env.fetch uri (codes "Bearer " ++ raw) ≡ answered status (ok null)
      → is_ok status ≡ true
      → (fill env.fetch env.now env.later uri raw i c).result ≡ err (codes "TypeError")
  unfolding fill use_response use_body
  fill-null uri raw i c status m x s = by_entry (fresh env.now (get c i.subject)) m
    where
      by_entry :
          (o : Option Entry)
          → o ≡ none
          → (elim o as (λ _. Filled) [
            | none ↦ use_response env.later i c (env.fetch uri (codes "Bearer " ++ raw))
            | some e ↦ use_entry i c e
          ]).result
            ≡ err (codes "TypeError")
      by_entry none _ = rw (x, s) refl
      by_entry (some e) q = cc

  after_fill-err :
      {reason : Units} (f : Filled)
      → f.result ≡ err reason
      → (after_fill w f).0 ≡ err (thrown reason)
  after_fill-err f e = rw e refl

  -- A valid token is refused where its payload has neither name nor email, no answer about its subject
  -- is cached, and the userinfo endpoint answers 200 to 299 with the body `null`: the call fails with
  -- the error of reading a member of null.
  pub authenticate-thrown :
      (raw uri : Units) (payload : Payload) (status : ℕ)
      → v.source headers ≡ some raw
      → env.jwt_verify raw (options v) ≡ ok payload
      → is_nameless (identity_from_claims v.mapper payload raw) ≡ true
      → v.userinfo ≡ some uri
      → fresh env.now (get w.cache (identity_from_claims v.mapper payload raw).subject) ≡ none
      → env.fetch uri (codes "Bearer " ++ raw) ≡ answered status (ok null)
      → is_ok status ≡ true
      → (authenticate env v headers w).0 ≡ err (thrown (codes "TypeError"))
  unfolding authenticate check accept
  authenticate-thrown raw uri payload status q p n u m x s = rw (q, p, n) (by_uri v.userinfo u)
    where
      i : Identity
      i = identity_from_claims v.mapper payload raw

      by_uri :
          (o : Option Units)
          → o ≡ some uri
          → (ask_userinfo env v raw i w o).0 ≡ err (thrown (codes "TypeError"))
      by_uri none e = cc
      by_uri (some place) e =
          let same_uri : place ≡ uri = cc in
          rw same_uri (
            after_fill-err (fill env.fetch env.now env.later uri raw i w.cache)
              (fill-null uri raw i w.cache status m x s))
