-- ===== src/Fiber/Laws.antt =====
-- The answers of the Fiber handlers, on every path.
use gateway_auth.Prelude.{
  ◌≡◌, refl, ap, ◌⊎◌, inl, inr, true, false, List, Option, none, some, ok, err, Bool-cases, arith,
}
use gateway_auth.Text.{Bytes}
use gateway_auth.Identity.{
  Identity, AuthError, AuthResult, Authenticator, from_context, has_any_role,
}
use gateway_auth.Identity.Roles.{has_any_role_iff, HoldsOne, not-HoldsOne}
use gateway_auth.Fiber.{
  FiberCtx, FiberError, Handler, attach, from, forbidden, status_for, pass, pass_roles, require,
  require_roles,
}

-- Both kinds of handler find the attached identity, and the request is as it was.
pub from-attach :
    (c : FiberCtx) (i : Identity)
    → (from (attach c i) ≡ some i)
      × (from_context (attach c i).user_values ≡ some i)
      × ((attach c i).headers ≡ c.headers)
unfolding from attach from_context
from-attach c i = (refl, refl, refl)

-- Every error of an authenticator is answered with 401.
pub status_for-status : (e : AuthError) → (status_for e).status ≡ 401
unfolding status_for
status_for-status e = ground arith

module _ {S : Type 0} (auth : Authenticator S) (next : Handler S) (c : FiberCtx) (s : S) where
  -- The outcomes of a request, with what it leaves.
  pub data Verdict (roles : Option (List Bytes)) (r : Option FiberError × FiberCtx × S)
      : Type 0 where
    unauthenticated :
        (e : AuthError)
        → (auth.authenticate c.headers s).0 ≡ err e
        → r ≡ (some (status_for e), c, (auth.authenticate c.headers s).1)
        → (status_for e).status ≡ 401
        → Verdict roles r
    lacks_roles :
        (i : Identity) (asked : List Bytes)
        → (auth.authenticate c.headers s).0 ≡ ok i
        → roles ≡ some asked
        → auth.enabled ≡ true
        → ¬ HoldsOne i asked
        → r ≡ (some forbidden, c, (auth.authenticate c.headers s).1)
        → Verdict roles r
    passes :
        (i : Identity)
        → (auth.authenticate c.headers s).0 ≡ ok i
        → ((asked : List Bytes) → roles ≡ some asked → (auth.enabled ≡ false) ⊎ HoldsOne i asked)
        → r ≡ next (attach c i) (auth.authenticate c.headers s).1
        → from (attach c i) ≡ some i
        → Verdict roles r

  pass-Verdict :
      (r : AuthResult × S) → auth.authenticate c.headers s ≡ r → Verdict none (pass auth next c r)
  pass-Verdict (err e, t) q = unauthenticated e (ap (λ z. z.0) q) (rw q refl) (status_for-status e)
  pass-Verdict (ok i, t) q =
      passes i (ap (λ z. z.0) q) (λ asked z. cc) (rw q refl) (from-attach c i).0

  pass_roles-Verdict :
      (roles : List Bytes) (r : AuthResult × S)
      → auth.authenticate c.headers s ≡ r
      → Verdict (some roles) (pass_roles auth roles next c r)
  pass_roles-Verdict roles (err e, t) q =
      unauthenticated e (ap (λ z. z.0) q) (rw q refl) (status_for-status e)
  pass_roles-Verdict roles (ok i, t) q = elim (Bool-cases auth.enabled) [
    | inr off ↦
        passes i (ap (λ z. z.0) q) (λ asked z. inl off) (rw (q, off) refl) (from-attach c i).0
    | inl on ↦ elim (Bool-cases (has_any_role i roles)) [
      | inl held ↦
          passes i (ap (λ z. z.0) q)
            (λ asked z. inr ((has_any_role_iff i asked).0 (has_asked asked z held)))
            (rw (q, on, held) refl) (from-attach c i).0
      | inr lacking ↦
          lacks_roles i roles (ap (λ z. z.0) q) refl on (not-HoldsOne i roles lacking)
            (rw (q, on, lacking) refl)
    ]
  ]
    where
      has_asked :
          (asked : List Bytes)
          → ◌≡◌ {A = Option (List Bytes)} (some roles) (some asked)
          → has_any_role i roles ≡ true
          → has_any_role i asked ≡ true
      has_asked asked z held = ground arith

  -- `RequireRoles` answers 401 where the authenticator fails; 403 where it is enabled and the caller holds
  -- none of the roles; in both cases nothing is attached and the handler does not run. Else the handler
  -- runs, with the caller's identity attached, and then the caller holds one of the roles or the
  -- authenticator is disabled. `Require` does the same with no roles asked for.
  pub require-Verdict :
      (roles : List Bytes)
      → Verdict (some roles) (require_roles auth roles next c s)
        × Verdict none (require auth next c s)
  unfolding require require_roles
  require-Verdict roles = (
    pass_roles-Verdict roles (auth.authenticate c.headers s) refl,
    pass-Verdict (auth.authenticate c.headers s) refl,
  )
