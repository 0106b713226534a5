-- ===== src/Huma/Laws.antt =====
-- The answers of the middleware, on every path.
use gateway_auth.Prelude.{
  ◌≡◌, ◌≢◌, refl, ap, ◌↔◌, ◌⊎◌, inl, inr, true, false, List, [], ◌∷◌, ◌++◌, Option, none, some,
  Result, ok, err, All, Bool-cases, Option-cases, arith, ◌∙◌, subst,
}
use gateway_auth.Text.{Bytes}
use gateway_auth.Identity.{
  Identity, AuthError, AuthResult, Authenticator, has_any_role, from_context, with_identity,
}
use gateway_auth.Identity.Roles.{has_any_role_iff, HoldsOne, not-HoldsOne}
use gateway_auth.Huma.{
  Dict, get, scheme_name, Operation, first_scopes, required_roles, HumaCtx, HttpError, Next,
  unauthorized, forbidden, with_value, admit, enforce, middleware,
}

-- The first requirement that names the scheme, and those before it.
pub record FirstScopes (security : List (Dict (List Bytes))) (scopes : List Bytes) : Type 0 where
  pub before : List (Dict (List Bytes))
  pub requirement : Dict (List Bytes)
  pub after : List (Dict (List Bytes))
  pub whole : security ≡ before ++ requirement ∷ after
  pub silent : All (λ r. get r scheme_name ≡ none) before
  pub names : get requirement scheme_name ≡ some scopes

first_scopes-FirstScopes :
    (rs : List (Dict (List Bytes))) (scopes : List Bytes)
    → first_scopes rs ≡ some scopes
    → FirstScopes rs scopes
unfolding first_scopes
first_scopes-FirstScopes [] scopes e = cc
first_scopes-FirstScopes (r ∷ rs) scopes e = elim (Option-cases (get r scheme_name)) [
  | inl missing ↦
      let f = first_scopes-FirstScopes rs scopes (ground arith) in
      record {
        before = r ∷ f.before;
        requirement = f.requirement;
        after = f.after;
        whole = ap (◌∷◌ r) f.whole;
        silent = (missing, f.silent);
        names = f.names;
      }
  | inr (found, here) ↦ record {
    before = [];
    requirement = r;
    after = rs;
    whole = refl;
    silent = tt;
    names = ground arith;
  }
]

FirstScopes-first_scopes :
    (before after : List (Dict (List Bytes))) (r : Dict (List Bytes)) (scopes : List Bytes)
    → All (λ q. get q scheme_name ≡ none) before
    → get r scheme_name ≡ some scopes
    → first_scopes (before ++ r ∷ after) ≡ some scopes
unfolding first_scopes
FirstScopes-first_scopes [] after r scopes _ e = rw e refl
FirstScopes-first_scopes (b ∷ before) after r scopes (h, hs) e =
    rw h (FirstScopes-first_scopes before after r scopes hs e)

-- An operation requires the scopes of its first requirement that names the scheme, and none of its
-- other requirements matters.
pub required_roles_iff :
    (op : Operation) (scopes : List Bytes)
    → (required_roles (some op) ≡ some scopes) ↔ FirstScopes op.security scopes
unfolding required_roles
required_roles_iff op scopes = (
  first_scopes-FirstScopes op.security scopes,
  λ f. rw f.whole (FirstScopes-first_scopes f.before f.after f.requirement scopes f.silent f.names),
)

-- The operation requires these roles: they are the scopes of its first requirement that names the scheme.
abbrev pub Requires : Option Operation → List Bytes → Type 0
Requires o roles = (op : Operation) × (o ≡ some op) × FirstScopes op.security roles

-- No requirement of the operation, if there is one, names the scheme.
abbrev pub IsSilent : Option Operation → Type 0
IsSilent o = (op : Operation) → o ≡ some op → All (λ r. get r scheme_name ≡ none) op.security

first_scopes-none :
    (rs : List (Dict (List Bytes)))
    → first_scopes rs ≡ none
    → All (λ r. get r scheme_name ≡ none) rs
unfolding first_scopes
first_scopes-none [] e = tt
first_scopes-none (r ∷ rs) e = elim (Option-cases (get r scheme_name)) [
  | inl missing ↦ (missing, first_scopes-none rs (ground arith))
  | inr (found, here) ↦ absurd (ground arith)
]

none-first_scopes :
    (rs : List (Dict (List Bytes)))
    → All (λ r. get r scheme_name ≡ none) rs
    → first_scopes rs ≡ none
unfolding first_scopes
none-first_scopes [] h = refl
none-first_scopes (r ∷ rs) (h, hs) = rw h (none-first_scopes rs hs)

-- What `requiredRoles` finds, told by the operation's requirements.
pub required_roles-Requires :
    (o : Option Operation) (roles : List Bytes) → (required_roles o ≡ some roles) ↔ Requires o roles
required_roles-Requires none roles = ((unfold required_roles in λ e. cc), (λ (op, e, f). cc))
required_roles-Requires (some op) roles = (
  λ e. (op, refl, (required_roles_iff op roles).0 e),
  λ (op', e, f). ap required_roles e ∙ (required_roles_iff op' roles).1 f,
)

pub required_roles-IsSilent : (o : Option Operation) → (required_roles o ≡ none) ↔ IsSilent o
unfolding required_roles
required_roles-IsSilent none = ((λ e op q. cc), (λ h. refl))
required_roles-IsSilent (some op) = (
  λ e op' q.
      let same_op : op ≡ op' = cc in
      subst (λ (o : Operation). All (λ r. get r scheme_name ≡ none) o.security) same_op
        (first_scopes-none op.security e),
  λ h. none-first_scopes op.security (h op refl),
)

module _ {S R : Type 0} (auth : Authenticator S) (next : Next S R) (ctx : HumaCtx) (s : S) where
  -- The outcomes of a request, with the state that it leaves.
  pub data Verdict (r : Result HttpError R × S) : Type 0 where
    anonymous : IsSilent ctx.operation → r ≡ next ctx s → Verdict r
    unauthenticated :
        (roles : List Bytes) (e : AuthError)
        → Requires ctx.operation roles
        → (auth.authenticate ctx.headers s).0 ≡ err e
        → r ≡ (err unauthorized, (auth.authenticate ctx.headers s).1)
        → Verdict r
    lacks_roles :
        (roles : List Bytes) (i : Identity)
        → Requires ctx.operation roles
        → (auth.authenticate ctx.headers s).0 ≡ ok i
        → auth.enabled ≡ true
        → roles ≢ []
        → ¬ HoldsOne i roles
        → r ≡ (err forbidden, (auth.authenticate ctx.headers s).1)
        → Verdict r
    passes :
        (roles : List Bytes) (i : Identity)
        → Requires ctx.operation roles
        → (auth.authenticate ctx.headers s).0 ≡ ok i
        → (auth.enabled ≡ false) ⊎ (roles ≡ []) ⊎ HoldsOne i roles
        → from_context (with_value ctx i).context ≡ some i
        → r ≡ next (with_value ctx i) (auth.authenticate ctx.headers s).1
        → Verdict r

  admit-Verdict :
      (roles : List Bytes) (r : AuthResult × S)
      → Requires ctx.operation roles
      → auth.authenticate ctx.headers s ≡ r
      → Verdict (admit auth roles next ctx r)
  admit-Verdict roles (err e, t) n q = unauthenticated roles e n (ap (λ z. z.0) q) (rw q refl)
  admit-Verdict [] (ok i, t) n q =
      passes [] i n (ap (λ z. z.0) q) (inr (inl refl)) (unfold from_context with_identity in refl)
        (rw q (ground arith))
  admit-Verdict (x ∷ xs) (ok i, t) n q = elim (Bool-cases auth.enabled) [
    | inr off ↦
        passes (x ∷ xs) i n (ap (λ z. z.0) q) (inl off) (unfold from_context with_identity in refl)
          (rw (q, off) refl)
    | inl on ↦ elim (Bool-cases (has_any_role i (x ∷ xs))) [
      | inl held ↦
          passes (x ∷ xs) i n (ap (λ z. z.0) q) (inr (inr ((has_any_role_iff i (x ∷ xs)).0 held)))
            (unfold from_context with_identity in refl) (rw (q, on, held) refl)
      | inr lacking ↦
          lacks_roles (x ∷ xs) i n (ap (λ z. z.0) q) on (λ z. cc) (not-HoldsOne i (x ∷ xs) lacking)
            (rw (q, on, lacking) refl)
    ]
  ]

  enforce-Verdict :
      (o : Option (List Bytes))
      → required_roles ctx.operation ≡ o
      → Verdict (enforce auth next ctx s o)
  enforce-Verdict none n = anonymous ((required_roles-IsSilent ctx.operation).0 n) refl
  enforce-Verdict (some roles) n =
      admit-Verdict roles (auth.authenticate ctx.headers s)
        ((required_roles-Requires ctx.operation roles).0 n) refl

  -- An operation none of whose requirements names the scheme is left anonymous: the authenticator is not
  -- asked. Any other requires the scopes of its first requirement that does, and the middleware answers 401 where the authenticator fails, and 403 where it is enabled, some roles
  -- are required and the caller holds none of them; else the handler runs with the caller's identity in its
  -- context.
  pub middleware-Verdict : Verdict (middleware auth next ctx s)
  unfolding middleware
  middleware-Verdict = enforce-Verdict (required_roles ctx.operation) refl
