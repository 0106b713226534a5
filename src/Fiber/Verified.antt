-- ===== src/Fiber/Verified.antt =====
-- The Fiber handlers in front of the verifier: which request gets which answer.
use gateway_auth.Prelude.{
  ◌⊎◌, inl, inr, true, false, List, ◌≡◌, refl, ap, ◌∙◌, Option, none, some, ok, err, sym, subst,
}
use gateway_auth.Text.{Bytes, codes}
use gateway_auth.Identity.{Identity, AuthResult}
use gateway_auth.Source.{token}
use gateway_auth.Claims.{Token}
use gateway_auth.Fiber.Laws
use gateway_auth.Verifier.Granted.{GrantsOne, authenticate-GrantsOne}
use gateway_auth.Verifier.Outcome.{RestsOn}
use gateway_auth.Verifier.{Verifier, World, Env, options, authenticate, as_authenticator}
use gateway_auth.Verifier.Outcome.{Verdict, missing, rejected, accepted, authenticate-Verdict}
use gateway_auth.Fiber.{
  FiberCtx, FiberError, Handler, unauthorized, forbidden, status_for, require, require_roles, pass,
  attach, from,
}

module _ {K : Type 0} (env : Env K) (v : Verifier) (next : Handler (World K)) (c : FiberCtx)
    (w : World K) where
  -- The three answers, each with the condition on the request for it.
  pub data Answer (r : Option FiberError × FiberCtx × World K) : Type 0 where
    no_token :
        token v.source c.headers ≡ none
        → r ≡ (
          some (
              unauthorized
                (codes "authentication required: reach this service through the gateway")),
          c,
          w,
        )
        → Answer r
    bad_token :
        (raw reason : Bytes)
        → token v.source c.headers ≡ some raw
        → env.parse_string raw (options env v w) ≡ err reason
        → r.0 ≡ some (unauthorized (codes "invalid credential"))
        → r.1 ≡ c
        → Answer r
    handled :
        (i : Identity)
        → (authenticate env v c.headers w).0 ≡ ok i
        → r ≡ next (attach c i) (authenticate env v c.headers w).1
        → Answer r

  pass-Answer :
      (r : AuthResult × World K)
      → authenticate env v c.headers w ≡ r
      → Verdict env v c.headers w r
      → Answer (pass (as_authenticator env v) next c r)
  unfolding status_for
  pass-Answer r q (missing t e) =
      subst (λ z. Answer (pass (as_authenticator env v) next c z)) (sym e) (no_token t refl)
  pass-Answer r q (rejected raw x t p e) =
      subst (λ z. Answer (pass (as_authenticator env v) next c z)) (sym e)
        (bad_token raw x t p refl refl)
  pass-Answer (a, w') q (accepted raw t i s p e o x) =
      subst (λ z. Answer (pass (as_authenticator env v) next c (z, w'))) (sym e)
        (handled i (ap (λ z. z.0) q ∙ e) (ap (λ z. next (attach c i) z.1) (sym q)))

  -- In front of the verifier, `Require` answers 401 with the advice to use the gateway exactly where the
  -- source finds no token, leaving the state as it was; 401 with "invalid credential", and nothing about
  -- the reason, where jwx rejects the token; and else runs the handler with the identity attached.
  pub require-Answer : Answer (require (as_authenticator env v) next c w)
  unfolding require as_authenticator
  require-Answer =
      pass-Answer (authenticate env v c.headers w) refl (authenticate-Verdict env v c.headers w)

  -- A refusal, or a handler that runs for a caller whose token grants one of the roles.
  pub data Granted (roles : List Bytes) (r : Option FiberError × FiberCtx × World K) : Type 0 where
    refused :
        (e : FiberError)
        → (e.status ≡ 401) ⊎ (e.status ≡ 403)
        → r ≡ (some e, c, (authenticate env v c.headers w).1)
        → Granted roles r
    served :
        (i : Identity) (raw : Bytes) (t : Token)
        → RestsOn env v c.headers w i raw t
        → GrantsOne v t roles
        → from (attach c i) ≡ some i
        → r ≡ next (attach c i) (authenticate env v c.headers w).1
        → Granted roles r

  Verdict-Granted :
      (roles : List Bytes) {r : Option FiberError × FiberCtx × World K}
      → Laws.Verdict (as_authenticator env v) next c w (some roles) r
      → Granted roles r
  unfolding as_authenticator
  Verdict-Granted roles (Laws.unauthenticated e a q s) = refused (status_for e) (inl s) q
  Verdict-Granted roles (Laws.lacks_roles i asked a p on n q) = refused forbidden (inr refl) q
  Verdict-Granted roles (Laws.passes i a may q f) =
      let (raw, t, rests, grants) =
        authenticate-GrantsOne env v c.headers w i roles a (held (may roles refl)) in
      served i raw t rests grants f q
    where
      held : {H : Type 0} → (true ≡ false) ⊎ H → H
      held (inl e) = cc
      held (inr h) = h

  -- In front of the verifier, `RequireRoles` runs the handler only for a caller with a token that jwx
  -- accepted and whose own roles claim grants one of the roles; the handler finds the identity read off
  -- that token. Every other request is answered 401 or 403, and nothing is attached to it.
  pub require_roles-Granted :
      (roles : List Bytes) → Granted roles (require_roles (as_authenticator env v) roles next c w)
  require_roles-Granted roles =
      Verdict-Granted roles (Laws.require-Verdict (as_authenticator env v) next c w roles).0
