-- ===== src/Ts/Adapters/Conforms.antt =====
-- The middleware of the port beside the Fiber handlers.
use gateway_auth.Prelude.{
  ◌≡◌, ◌≢◌, refl, true, false, ◌&&◌, not, List, [], ◌∷◌, Option, none, some, Result, ok, err,
  Bool-cases, inl, inr,
}
use gateway_auth.Text.{Bytes}
use gateway_auth.Identity as GoIdentity
use gateway_auth.Identity.{items, is_no_credential, is_invalid_token}
use gateway_auth.Fiber as Go
use gateway_auth.Fiber.{FiberError, FiberCtx}
use gateway_auth.Ts.Strings.{Units}
use gateway_auth.Ts.Identity.{
  Identity, Rejection, no_credential, invalid_token, thrown, Authenticator, includes, has_role,
  has_any_role,
}
use gateway_auth.Ts.Claims.Conforms.{SameIdentity}
use gateway_auth.Ts.Adapters.{
  RequestLike, Outcome, sent, passed, send_auth_error, answer, from_node_headers, authenticate_then,
  middleware, require_roles,
}

-- `errors.Is` in Go finds what `instanceof` finds in the port.
SameError : GoIdentity.AuthError → Rejection → Type 0
SameError e no_credential = is_no_credential e ≡ true
SameError e invalid_token = (is_no_credential e ≡ false) × (is_invalid_token e ≡ true)
SameError e (thrown text) = (is_no_credential e ≡ false) × (is_invalid_token e ≡ false)

-- Two authenticators resolve one request alike.
unfoldable pub SameResult : GoIdentity.AuthResult → Result Rejection Identity → Type 0
unfolding SameError
SameResult (err e) (err x) = SameError e x
SameResult (ok i) (ok j) = SameIdentity i j
SameResult _ _ = ⊥

-- The two requests are answered with one status and one text, or both handlers run, on identities that
-- are the same.
unfoldable pub SameOutcome : {S : Type 0} → Option FiberError × FiberCtx × S → Outcome → Type 0
SameOutcome (some e, _, _) (sent status text) = (status ≡ e.status) × (text ≡ e.message)
SameOutcome (none, c, _) (passed req) =
    (i : GoIdentity.Identity) × (j : Identity) × ((Go.from c ≡ some i)
      × (req.identity ≡ some j)
      × SameIdentity i j)
SameOutcome _ _ = ⊥

-- The handler behind the middleware, which does nothing.
abbrev pub reached : {S : Type 0} → Go.Handler S
reached c s = (none, c, s)

holds-includes : (rs : List Bytes) (role : Bytes) → GoIdentity.holds rs role ≡ includes rs role
unfolding includes GoIdentity.holds
holds-includes [] role = refl
holds-includes (r ∷ rs) role = rw (holds-includes rs role) refl

has_any_role-SameIdentity :
    (i : GoIdentity.Identity) (j : Identity) (roles : List Bytes)
    → SameIdentity i j
    → GoIdentity.has_any_role i roles ≡ has_any_role j roles
unfolding GoIdentity.has_any_role GoIdentity.has_role has_any_role has_role
has_any_role-SameIdentity i j [] s = refl
has_any_role-SameIdentity i j (r ∷ rs) s =
    rw (has_any_role-SameIdentity i j rs s, s.roles, holds-includes j.roles r) refl

module _ {S T : Type 0} (g : GoIdentity.Authenticator S) (p : Authenticator T) (c : FiberCtx)
    (req : RequestLike) (s : S) where
  error-SameOutcome :
      (e : GoIdentity.AuthError) (x : Rejection)
      → SameError e x
      → SameOutcome (some (Go.status_for e), c, s) (send_auth_error x)
  unfolding SameError SameOutcome Go.status_for send_auth_error
  error-SameOutcome e no_credential h = rw h (refl, refl)
  error-SameOutcome e invalid_token (h, k) = rw (h, k) (refl, refl)
  error-SameOutcome e (thrown text) (h, k) = rw (h, k) (refl, refl)

  both_pass :
      (i : GoIdentity.Identity) (j : Identity)
      → SameIdentity i j
      → SameOutcome (reached (Go.attach c i) s) (passed (record req { identity = some j }))
  unfolding SameOutcome Go.from Go.attach
  both_pass i j h = (i, j, (refl, refl, h))

  pass-answer :
      (r : GoIdentity.AuthResult) (x : Result Rejection Identity)
      → SameResult r x
      → SameOutcome (Go.pass g reached c (r, s)) (answer p none req x)
  unfolding SameResult answer
  pass-answer (err e) (err x) h = error-SameOutcome e x h
  pass-answer (err e) (ok j) h = absurd h
  pass-answer (ok i) (err x) h = absurd h
  pass-answer (ok i) (ok j) h = both_pass i j h

  pass_roles-answer :
      (role : Bytes) (roles : List Bytes) (r : GoIdentity.AuthResult)
      (x : Result Rejection Identity)
      → g.enabled ≡ p.enabled
      → SameResult r x
      → SameOutcome
          (Go.pass_roles g (role ∷ roles) reached c (r, s))
          (answer p (some (role ∷ roles)) req x)
  unfolding SameResult answer
  pass_roles-answer role roles (err e) (err x) same_mode h = error-SameOutcome e x h
  pass_roles-answer role roles (err e) (ok j) same_mode h = absurd h
  pass_roles-answer role roles (ok i) (err x) same_mode h = absurd h
  pass_roles-answer role roles (ok i) (ok j) same_mode h =
      rw (same_mode, has_any_role-SameIdentity i j (role ∷ roles) h)
        (elim (Bool-cases (p.enabled && not (has_any_role j (role ∷ roles)))) [
          | inl f ↦ rw f (unfold SameOutcome in (refl, refl))
          | inr f ↦ rw f (both_pass i j h)
        ])

module _ {S T : Type 0} (g : GoIdentity.Authenticator S) (p : Authenticator T)
    (lower_other : Units → Units) (c : FiberCtx) (req : RequestLike) (s : S) (t : T) where
  -- Where the two authenticators resolve the request alike, the express middleware answers it as the
  -- Fiber handler `Require` does, or lets it through with the same identity.
  pub middleware-SameOutcome :
      SameResult
        (g.authenticate c.headers s).0
        (p.authenticate (from_node_headers lower_other req.headers) t).0
      → SameOutcome (Go.require g reached c s) (middleware p lower_other req t).0
  unfolding Go.require middleware authenticate_then
  middleware-SameOutcome h = pass-answer g p c req _ _ _ h

  -- Where the two authenticators are both enabled or both not, and resolve the request alike,
  -- `requireRoles` for some roles answers it as the Fiber handler `RequireRoles` does: with the same
  -- status and text, or it lets it through with the same identity.
  pub require_roles-SameOutcome :
      (roles : List Bytes)
      → g.enabled ≡ p.enabled
      → SameResult
          (g.authenticate c.headers s).0
          (p.authenticate (from_node_headers lower_other req.headers) t).0
      → roles ≢ []
      → SameOutcome
          (Go.require_roles g roles reached c s)
          (require_roles p lower_other roles req t).0
  unfolding Go.require_roles require_roles authenticate_then
  require_roles-SameOutcome [] same_mode h ne = absurd (ne refl)
  require_roles-SameOutcome (role ∷ roles) same_mode h ne =
      pass_roles-answer g p c req _ role roles _ _ same_mode h

  -- For no roles the two differ: on a caller whom both authenticators accept, `requireRoles()` lets the
  -- request through, and the Fiber handler `RequireRoles()` of an enabled authenticator forbids it.
  pub require_roles-forbidden :
      (i : GoIdentity.Identity) (j : Identity)
      → g.enabled ≡ true
      → (g.authenticate c.headers s).0 ≡ ok i
      → (p.authenticate (from_node_headers lower_other req.headers) t).0 ≡ ok j
      → ((Go.require_roles g [] reached c s).0 ≡ some Go.forbidden)
        × ((require_roles p lower_other [] req t).0 ≡ passed (record req { identity = some j }))
  unfolding Go.require_roles GoIdentity.has_any_role require_roles authenticate_then answer
  require_roles-forbidden i j on a b = (forbidden_by (g.authenticate c.headers s) a, rw b refl)
    where
      forbidden_by :
          (r : GoIdentity.AuthResult × S)
          → r.0 ≡ ok i
          → (Go.pass_roles g [] reached c r).0 ≡ some Go.forbidden
      forbidden_by (r, s') e = rw e (rw on refl)
