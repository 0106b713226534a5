-- ===== src/Adapters/Agree.antt =====
-- The adapters admit the same callers and hand the same identity to the service; where they refuse, they
-- agree on the status, and each has its own text.
use gateway_auth.Prelude.{
  ◌≡◌, refl, ◌⊎◌, inl, inr, true, false, List, [], ◌∷◌, Option, none, some, ok, err, Bool-cases,
  arith, subst,
}
use gateway_auth.Text.{Bytes, codes}
use gateway_auth.Identity.{
  Identity, Headers, AuthError, AuthResult, Authenticator, Context, from_context, with_identity,
  has_any_role, is_no_credential, is_invalid_token,
}
use gateway_auth.Identity.Roles.{has_any_role_iff, HoldsOne, not-HoldsOne}
use gateway_auth.Fiber.{
  FiberCtx, attach, from, status_for, pass, pass_roles, require, require_roles,
}
use gateway_auth.Fiber.Laws.{status_for-status}
use gateway_auth.Huma.{HumaCtx, with_value, admit, middleware}
use gateway_auth.Huma.Laws.{Requires, required_roles-Requires}
use gateway_auth.Connect
use gateway_auth.Connect.{interceptor}
use gateway_auth.Adapters.{
  Told, error, Service, answered, asking, fiber_reply, huma_reply, connect_reply, fiber_handler,
  huma_handler, connect_handler, fiber_told, huma_told, connect_told,
}

-- The texts of the refusals.
abbrev pub advice : Bytes
advice = codes "authentication required: reach this service through the gateway"

abbrev pub no_role : Bytes
no_role = codes "your account holds none of the required roles"

-- The text with which Fiber tells of an error.
pub data FiberText (e : AuthError) (m : Bytes) : Type 0 where
  missing : is_no_credential e ≡ true → m ≡ advice → FiberText e m
  invalid :
      is_no_credential e ≡ false
      → is_invalid_token e ≡ true
      → m ≡ codes "invalid credential"
      → FiberText e m
  other :
      is_no_credential e ≡ false
      → is_invalid_token e ≡ false
      → m ≡ codes "authentication failed"
      → FiberText e m

status_for-FiberText : (e : AuthError) → FiberText e (status_for e).message
unfolding status_for
status_for-FiberText e = elim (Bool-cases (is_no_credential e)) [
  | inl y ↦ missing y (rw y refl)
  | inr n ↦ elim (Bool-cases (is_invalid_token e)) [
    | inl y ↦ invalid n y (rw (n, y) refl)
    | inr k ↦ other n k (rw (n, k) refl)
  ]
]

module _ {S : Type 0} (auth : Authenticator S) (service : Service S) (asked : List Bytes) where
  -- What becomes of one request, whose authentication gave `r`: `f` is what a Fiber client is told, and
  -- `o` what the client of another adapter is, whose text for a failed authentication is `text`; each
  -- with the state that is left.
  pub data Fate (r : AuthResult × S) (text : Bytes) (f o : Told × S) : Type 0 where
    unauthenticated :
        (e : AuthError) (m : Bytes)
        → r.0 ≡ err e
        → FiberText e m
        → f ≡ (error 401 m, r.1)
        → o ≡ (error 401 text, r.1)
        → Fate r text f o
    lacks_roles :
        (i : Identity)
        → r.0 ≡ ok i
        → auth.enabled ≡ true
        → ¬ HoldsOne i asked
        → f ≡ (error 403 no_role, r.1)
        → o ≡ (error 403 no_role, r.1)
        → Fate r text f o
    served :
        (i : Identity)
        → r.0 ≡ ok i
        → (auth.enabled ≡ false) ⊎ (asked ≡ []) ⊎ HoldsOne i asked
        → f ≡ answered (service (some i) r.1)
        → o ≡ answered (service (some i) r.1)
        → Fate r text f o

module _ {S : Type 0} (service : Service S) where
  -- A reply of the service is told in full by each framework.
  reply_told :
      (c : FiberCtx) (r : Option Bytes × S)
      → (fiber_told (fiber_reply service c r) ≡ answered r)
        × (huma_told (huma_reply service r) ≡ answered r)
        × (connect_told (connect_reply service r) ≡ answered r)
  reply_told c (none, t) = (refl, refl, refl)
  reply_told c (some m, t) = (refl, refl, refl)

  served_told :
      (c : FiberCtx) (ctx : HumaCtx) (go_ctx : Context) (i : Identity) (t : S)
      → (fiber_told (fiber_handler service (attach c i) t) ≡ answered (service (some i) t))
        × (huma_told (huma_handler service (with_value ctx i) t) ≡ answered (service (some i) t))
        × (connect_told (connect_handler service (with_identity go_ctx i) t)
            ≡ answered (service (some i) t))
  unfolding from attach from_context with_identity
  served_told c ctx go_ctx i t = reply_told (attach c i) (service (some i) t)

module _ {S : Type 0} (auth : Authenticator S) (service : Service S) (c : FiberCtx) (ctx : HumaCtx)
    (go_ctx : Context) where
  pass_roles-Fate :
      (role : Bytes) (roles : List Bytes) (r : AuthResult × S)
      → Fate auth service
          (role ∷ roles)
          r
          advice
          (fiber_told (pass_roles auth (role ∷ roles) (fiber_handler service) c r))
          (huma_told (admit auth (role ∷ roles) (huma_handler service) ctx r))
  pass_roles-Fate role roles (err e, t) =
      unauthenticated e _ refl (status_for-FiberText e) (rw (status_for-status e) refl) refl
  pass_roles-Fate role roles (ok i, t) =
      let (f, o, _) = served_told service c ctx go_ctx i t in
      elim (Bool-cases auth.enabled) [
        | inr off ↦ served i refl (inl off) (rw off f) (rw off o)
        | inl on ↦ elim (Bool-cases (has_any_role i (role ∷ roles))) [
          | inl held ↦
              served i refl (inr (inr ((has_any_role_iff i (role ∷ roles)).0 held)))
                (rw (on, held) f) (rw (on, held) o)
          | inr lacking ↦
              lacks_roles i refl on (not-HoldsOne i (role ∷ roles) lacking) (rw (on, lacking) refl)
                (rw (on, lacking) refl)
        ]
      ]

  pass-Fate :
      (r : AuthResult × S)
      → Fate auth service [] r advice
          (fiber_told (pass auth (fiber_handler service) c r))
          (huma_told (admit auth [] (huma_handler service) ctx r))
  pass-Fate (err e, t) =
      unauthenticated e _ refl (status_for-FiberText e) (rw (status_for-status e) refl) refl
  pass-Fate (ok i, t) =
      let (f, o, _) = served_told service c ctx go_ctx i t in
      served i refl (inr (inl refl)) f (ground (arith, o))

  pass-Connect :
      (r : AuthResult × S)
      → Fate auth service [] r
          (codes "authentication required")
          (fiber_told (pass auth (fiber_handler service) c r))
          (connect_told (Connect.admit auth (connect_handler service) go_ctx r))
  pass-Connect (err e, t) =
      unauthenticated e _ refl (status_for-FiberText e) (rw (status_for-status e) refl) refl
  pass-Connect (ok i, t) =
      let (f, _, o) = served_told service c ctx go_ctx i t in served i refl (inr (inl refl)) f o

  asking-Fate :
      (s : S) (asked : List Bytes)
      → Fate auth service asked
          (auth.authenticate c.headers s)
          advice
          (fiber_told (asking auth asked (fiber_handler service) c s))
          (huma_told (admit auth asked (huma_handler service) ctx (auth.authenticate c.headers s)))
  unfolding require require_roles
  asking-Fate s [] = pass-Fate (auth.authenticate c.headers s)
  asking-Fate s (role ∷ roles) = pass_roles-Fate role roles (auth.authenticate c.headers s)

  -- One service, one authenticator, one request. A Fiber client behind `RequireRoles` with some roles,
  -- or `Require` where no role is asked for, and a Huma client of an operation that requires those roles
  -- are both told 401 where the authentication fails, each in its adapter's text; both 403, in the same
  -- text, where the authenticator is enabled, some roles are asked for and the caller holds none; and
  -- both what the service answers to the same caller otherwise. So it is for a Fiber client behind
  -- `Require` and a connectrpc client behind `Interceptor`. The state that is left is the same.
  pub adapters_agree :
      (s : S) (asked : List Bytes)
      → c.headers ≡ ctx.headers
      → Requires ctx.operation asked
      → Fate auth service asked
          (auth.authenticate c.headers s)
          advice
          (fiber_told (asking auth asked (fiber_handler service) c s))
          (huma_told (middleware auth (huma_handler service) ctx s))
        × Fate auth service []
            (auth.authenticate c.headers s)
            (codes "authentication required")
            (fiber_told (require auth (fiber_handler service) c s))
            (connect_told (interceptor auth (connect_handler service) c.headers go_ctx s))
  unfolding middleware require interceptor
  adapters_agree s asked h requires = (
    rw ((required_roles-Requires ctx.operation asked).1 requires) (
        subst
          (λ (x : Headers).
            Fate auth service asked (auth.authenticate c.headers s) advice
              (fiber_told (asking auth asked (fiber_handler service) c s))
              (huma_told (admit auth asked (huma_handler service) ctx (auth.authenticate x s))))
          h (asking-Fate s asked)),
    pass-Connect (auth.authenticate c.headers s),
  )
