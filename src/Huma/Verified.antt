-- ===== src/Huma/Verified.antt =====
-- The Huma middleware in front of the verifier.
use gateway_auth.Prelude.{
  ◌≡◌, ◌≢◌, refl, ◌⊎◌, inl, inr, true, false, List, [], some, Result, err, subst, sym, ◌∙◌, arith,
}
use gateway_auth.Text.{Bytes}
use gateway_auth.Identity.{Identity, from_context}
use gateway_auth.Identity.Roles.{HoldsOne}
use gateway_auth.Claims.{Token}
use gateway_auth.Verifier.{Verifier, World, Env, authenticate, as_authenticator}
use gateway_auth.Verifier.Outcome.{RestsOn}
use gateway_auth.Verifier.Granted.{GrantsOne, authenticate-GrantsOne}
use gateway_auth.Huma.{
  required_roles, HumaCtx, HttpError, Next, unauthorized, forbidden, with_value, middleware,
}
use gateway_auth.Huma.Laws

module _ {K R : Type 0} (env : Env K) (v : Verifier) (next : Next (World K) R) (ctx : HumaCtx)
    (w : World K) (roles : List Bytes) where
  -- A refusal, or a handler that runs for a caller whose token grants one of the roles.
  pub data Granted (r : Result HttpError R × World K) : Type 0 where
    refused :
        (e : HttpError)
        → (e.status ≡ 401) ⊎ (e.status ≡ 403)
        → r ≡ (err e, (authenticate env v ctx.headers w).1)
        → Granted r
    served :
        (i : Identity) (raw : Bytes) (t : Token)
        → RestsOn env v ctx.headers w i raw t
        → GrantsOne v t roles
        → from_context (with_value ctx i).context ≡ some i
        → r ≡ next (with_value ctx i) (authenticate env v ctx.headers w).1
        → Granted r

  Verdict-Granted :
      {r : Result HttpError R × World K}
      → required_roles ctx.operation ≡ some roles
      → roles ≢ []
      → Laws.Verdict (as_authenticator env v) next ctx w r
      → Granted r
  unfolding as_authenticator
  Verdict-Granted required some_role (Laws.anonymous n q) =
      let silent = (Laws.required_roles-IsSilent ctx.operation).1 n in absurd (ground arith)
  Verdict-Granted required some_role (Laws.unauthenticated rs e n a q) =
      refused unauthorized (inl refl) q
  Verdict-Granted required some_role (Laws.lacks_roles rs i n a on ne lacking q) =
      refused forbidden (inr refl) q
  Verdict-Granted required some_role (Laws.passes rs i n a may f q) =
      let found = (Laws.required_roles-Requires ctx.operation rs).1 n in
      let same_roles : rs ≡ roles = ground arith in
      let (raw, t, rests, grants) =
        authenticate-GrantsOne env v ctx.headers w i roles a
          (subst (HoldsOne i) same_roles (held rs i same_roles may)) in
      served i raw t rests grants f q
    where
      held :
          (rs : List Bytes) (i : Identity)
          → rs ≡ roles
          → (true ≡ false) ⊎ (rs ≡ []) ⊎ HoldsOne i rs
          → HoldsOne i rs
      held rs i s (inl e) = cc
      held rs i s (inr (inl e)) = absurd (some_role (sym s ∙ e))
      held rs i s (inr (inr h)) = h

  -- In front of the verifier, an operation that requires some roles runs only for a caller with a token
  -- that jwx accepted and whose own roles claim grants one of them; the handler finds the identity read
  -- off that token. Every other request is answered 401 or 403.
  pub middleware-Granted :
      required_roles ctx.operation ≡ some roles
      → roles ≢ []
      → Granted (middleware (as_authenticator env v) next ctx w)
  middleware-Granted required some_role =
      Verdict-Granted required some_role
        (Laws.middleware-Verdict (as_authenticator env v) next ctx w)
