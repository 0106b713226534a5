-- ===== src/Verifier/Contract.antt =====
-- What an accepted call proves about its token, given what jwx documents of `jwt.ParseString`.
use gateway_auth.Prelude.{
  ◌≡◌, ◌≢◌, refl, ap, sym, true, List, [], some, ok, Any, is_empty-false, subst, ◌⊎◌, inl, inr,
  Bool-cases, is_empty, ne-nil_of_is_empty, arith,
}
use gateway_auth.Text.{Bytes}
use gateway_auth.Identity.{Identity, Headers}
use gateway_auth.Claims.{Token, identity}
use gateway_auth.Verifier.{Verifier, World, Env, ParseOptions, options, authenticate}
use gateway_auth.Verifier.Outcome.{RestsOn, authenticate_sound}

-- The documented meaning of a parse that returns a token: a key of the set signed the text; and where
-- the parse was asked to validate, the token has the issuer asked for and, where one is asked for, the
-- audience, and is valid at the time. A parse that was not asked to validate promises the signature
-- alone.
pub record Contract {K : Type 0} (env : Env K) (IsSigned : K → Bytes → Type 0)
    (issuer_of : Token → Bytes) (audiences : Token → List Bytes) (IsCurrent : Token → Type 0)
    : Type 0 where
  pub signature :
      (raw : Bytes) (o : ParseOptions K) (t : Token)
      → env.parse_string raw o ≡ ok t
      → (set : K) × (o.keys ≡ some set) × IsSigned set raw
  pub issuer :
      (raw : Bytes) (o : ParseOptions K) (t : Token)
      → env.parse_string raw o ≡ ok t
      → o.validate ≡ true
      → issuer_of t ≡ o.issuer
  pub audience :
      (raw : Bytes) (o : ParseOptions K) (t : Token) (a : Bytes)
      → env.parse_string raw o ≡ ok t
      → o.validate ≡ true
      → o.audience ≡ some a
      → Any (λ b. b ≡ a) (audiences t)
  pub validity :
      (raw : Bytes) (o : ParseOptions K) (t : Token)
      → env.parse_string raw o ≡ ok t
      → o.validate ≡ true
      → IsCurrent t

module _ {K : Type 0} (env : Env K) (IsSigned : K → Bytes → Type 0) (issuer_of : Token → Bytes)
    (audiences : Token → List Bytes) (IsCurrent : Token → Type 0) where
  options-audience :
      (v : Verifier) (w : World K) → v.audience ≢ [] → (options env v w).audience ≡ some v.audience
  unfolding options
  options-audience v w ne = rw (is_empty-false v.audience ne) refl

  -- If `jwt.ParseString` does what jwx documents of it, an authenticated caller is whom the issuer's
  -- token names: the identity carries the raw token, a key held at the
  -- time signed it, and the token that it decodes to is valid then, of the configured issuer and, where
  -- an audience is configured, for that audience.
  pub authenticate_verified :
      Contract env IsSigned issuer_of audiences IsCurrent
      → (v : Verifier) (h : Headers) (w : World K) (i : Identity)
      → (authenticate env v h w).0 ≡ ok i
      → (set : K) × (t : Token) × (w.key_set.keys ≡ some set)
        × IsSigned set i.token
        × RestsOn env v h w i i.token t
        × (issuer_of t ≡ v.issuer)
        × ((v.audience ≡ []) ⊎ Any (λ b. b ≡ v.audience) (audiences t))
        × IsCurrent t
  authenticate_verified c v h w i e =
      let (raw, t, r) = authenticate_sound env v h w i e in
      let (q, p, (n, m, s)) = r in
      let (set, k, signed) = c.signature raw _ t p in
      let token_kept : raw ≡ i.token = unfold identity in sym (ap (λ z. z.token) s) in
      (
        set,
        t,
        (unfold options in k),
        subst (IsSigned set) token_kept signed,
        subst (λ b. RestsOn env v h w i b t) token_kept r,
        (unfold options in c.issuer raw _ t p refl),
        elim (Bool-cases (is_empty v.audience)) [
          | inl e ↦ inl (ground arith)
          | inr e ↦ inr (
              c.audience raw _ t v.audience p (unfold options in refl)
                (options-audience v w (ne-nil_of_is_empty v.audience e)))
        ],
        c.validity raw _ t p (unfold options in refl),
      )
