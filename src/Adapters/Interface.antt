-- ===== src/Adapters/Interface.antt =====
-- What adapters/fibermw relies on of the interface `Authenticator` of gatewayauth.go, and that the
-- three implementations of the module give it.
use gateway_auth.Prelude.{
  ◌≡◌, refl, ap, ◌⊎◌, inl, inr, true, false, Option, some, ok, err, Bool-cases, arith,
}
use gateway_auth.Text.{codes}
use gateway_auth.Identity.{
  Identity, Headers, Strings, AuthError, no_credential, invalid_token, AuthResult, Authenticator,
  is_no_credential, is_invalid_token, new_disabled,
}
use gateway_auth.Trust.{new_header_trust}
use gateway_auth.Trust.Laws.{trust_headers_iff}
use gateway_auth.Verifier.{Verifier, World, Env, as_authenticator}
use gateway_auth.Verifier.Outcome.{Verdict, missing, rejected, accepted, authenticate-Verdict}
use gateway_auth.Fiber.{
  FiberCtx, FiberError, Handler, attach, unauthorized, status_for, pass, require,
}

-- The two classes of errors that `Authenticate` reports.
abbrev pub IsClassified : AuthError → Type 0
IsClassified e = (is_no_credential e ≡ true) ⊎ (is_invalid_token e ≡ true)

-- The contract: `Authenticate` reports only the two classes, and fails for nobody where `Enabled` is
-- false.
pub record IsAuthenticator {S : Type 0} (auth : Authenticator S) : Type 0 where
  pub classified :
      (h : Headers) (s : S) (e : AuthError) → (auth.authenticate h s).0 ≡ err e → IsClassified e
  pub accepts_all :
      auth.enabled ≡ false
      → (h : Headers) (s : S) → (i : Identity) × ((auth.authenticate h s).0 ≡ ok i)

missing-IsClassified : (e : AuthError) → e ≡ no_credential → IsClassified e
unfolding is_no_credential
missing-IsClassified e q = rw q (inl refl)

invalid-IsClassified : (e : AuthError) → e ≡ invalid_token → IsClassified e
unfolding is_invalid_token
invalid-IsClassified e q = rw q (inr refl)

Verdict-IsClassified :
    {K : Type 0} (env : Env K) (v : Verifier) (h : Headers) (w : World K) (r : AuthResult × World K)
    (e : AuthError)
    → Verdict env v h w r
    → r.0 ≡ err e
    → IsClassified e
Verdict-IsClassified env v h w r e (missing t q) f = missing-IsClassified e (ground arith)
Verdict-IsClassified env v h w r e (rejected raw x t p q) f = invalid-IsClassified e (ground arith)
Verdict-IsClassified env v h w r e (accepted raw t i s p q o x) f = absurd (ground arith)

verifier-IsAuthenticator :
    {K : Type 0} (env : Env K) (v : Verifier) → IsAuthenticator (as_authenticator env v)
unfolding as_authenticator
verifier-IsAuthenticator env v = record {
  classified = λ h w e. Verdict-IsClassified env v h w _ e (authenticate-Verdict env v h w);
  accepts_all = λ off. cc;
}

header_trust-IsAuthenticator : {S : Type 0} → IsAuthenticator (new_header_trust {S = S})
unfolding new_header_trust
header_trust-IsAuthenticator = record {
  classified = λ h s e f. elim (trust_headers_iff h).1 [
    | inl q ↦ missing-IsClassified e (ground arith)
    | inr (i, q, _, _) ↦ absurd (ground arith)
  ];
  accepts_all = λ off. cc;
}

disabled-IsAuthenticator :
    {S : Type 0} (roles : Strings) → IsAuthenticator (new_disabled {S = S} roles)
unfolding new_disabled
disabled-IsAuthenticator roles = record {
  classified = λ h s e f. cc;
  accepts_all = λ off h s. (_, refl);
}

-- The three implementations keep the contract.
pub implementations-IsAuthenticator :
    {K S : Type 0} (env : Env K) (v : Verifier) (roles : Strings)
    → IsAuthenticator (as_authenticator env v)
      × IsAuthenticator (new_header_trust {S = S})
      × IsAuthenticator (new_disabled {S = S} roles)
implementations-IsAuthenticator env v roles =
    (verifier-IsAuthenticator env v, header_trust-IsAuthenticator, disabled-IsAuthenticator roles)

module _ {S : Type 0} (auth : Authenticator S) (next : Handler S) (c : FiberCtx) (s : S) where
  -- What `Require` answers: `r` is the answer, with what it leaves.
  pub data Reply (r : Option FiberError × FiberCtx × S) : Type 0 where
    no_credential_presented :
        (e : AuthError)
        → (auth.authenticate c.headers s).0 ≡ err e
        → auth.enabled ≡ true
        → is_no_credential e ≡ true
        → r.0
          ≡ some (
              unauthorized
                (codes "authentication required: reach this service through the gateway"))
        → Reply r
    credential_invalid :
        (e : AuthError)
        → (auth.authenticate c.headers s).0 ≡ err e
        → auth.enabled ≡ true
        → is_invalid_token e ≡ true
        → r.0 ≡ some (unauthorized (codes "invalid credential"))
        → Reply r
    handled :
        (i : Identity)
        → (auth.authenticate c.headers s).0 ≡ ok i
        → r ≡ next (attach c i) (auth.authenticate c.headers s).1
        → Reply r

  refused_enabled :
      (e : AuthError)
      → IsAuthenticator auth
      → (auth.authenticate c.headers s).0 ≡ err e
      → auth.enabled ≡ true
  refused_enabled e law q = elim (Bool-cases auth.enabled) [
    | inl on ↦ on
    | inr off ↦ let (i, f) = law.accepts_all off c.headers s in absurd (ground arith)
  ]

  pass-Reply :
      (r : AuthResult × S)
      → IsAuthenticator auth
      → auth.authenticate c.headers s ≡ r
      → Reply (pass auth next c r)
  unfolding status_for
  pass-Reply (ok i, t) law q = handled i (ap (λ z. z.0) q) (rw q refl)
  pass-Reply (err e, t) law q =
      let failed = ap (λ (z : AuthResult × S). z.0) q in
      let on = refused_enabled e law failed in
      elim (Bool-cases (is_no_credential e)) [
        | inl y ↦ no_credential_presented e failed on y (rw y refl)
        | inr n ↦ elim (law.classified c.headers s e failed) [
          | inl y ↦ absurd (ground arith)
          | inr y ↦ credential_invalid e failed on y (rw (n, y) refl)
        ]
      ]

  -- In front of any authenticator that keeps the contract, `Require` runs the handler or refuses with one
  -- of two texts, that for a missing credential or that for an invalid one; the third text of `statusFor`
  -- is never sent, and a disabled authenticator refuses nobody.
  pub require-Reply : IsAuthenticator auth → Reply (require auth next c s)
  unfolding require
  require-Reply law = pass-Reply (auth.authenticate c.headers s) law refl
