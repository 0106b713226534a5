-- ===== src/Connect/Laws.antt =====
-- What reaches a handler behind the interceptors.
use gateway_auth.Prelude.{◌≡◌, refl, ap, ◌⊎◌, inl, inr, some, ok, err}
use gateway_auth.Identity.{
  Identity, Headers, AuthError, AuthResult, Authenticator, Context, with_identity, from_context,
}
use gateway_auth.Identity.Roles.{from_context-with_identity}
use gateway_auth.Connect.{
  Unary, unauthenticated, admit, admit_any, interceptor, optional_interceptor,
}

-- The contexts in which the handler may run for this request: those from which it reads the identity
-- that the authenticator gave.
abbrev pub Sees : {S : Type 0} → Authenticator S → Headers → S → Context → Type 0
Sees auth h s c = (i : Identity) × ((auth.authenticate h s).0 ≡ ok i) × (from_context c ≡ some i)

-- Two handlers that do the same wherever the property holds of the context.
abbrev pub AgreeOn : {S R : Type 0} → (Context → Type 0) → Unary S R → Unary S R → Type 0
AgreeOn {S} P next other = (c : Context) (t : S) → P c → next c t ≡ other c t

module _ {S R : Type 0} (auth : Authenticator S) (h : Headers) (ctx : Context) (s : S) where
  admit_same :
      (next other : Unary S R) (r : AuthResult × S)
      → auth.authenticate h s ≡ r
      → AgreeOn (Sees auth h s) next other
      → admit auth next ctx r ≡ admit auth other ctx r
  admit_same next other (err e, t) q a = refl
  admit_same next other (ok i, t) q a =
      a (with_identity ctx i) t (i, ap (λ r. r.0) q, (from_context-with_identity ctx i).0)

  -- Two handlers that agree wherever an identity that the authenticator gave for this request can be
  -- read from the context are the same behind `Interceptor`: no other context reaches them. A call
  -- that the authenticator does not accept is answered `CodeUnauthenticated`, whatever the reason.
  pub interceptor_guards :
      (next other : Unary S R)
      → AgreeOn (Sees auth h s) next other
      → (interceptor auth next h ctx s ≡ interceptor auth other h ctx s)
        × (((i : Identity) × ((auth.authenticate h s).0 ≡ ok i))
            ⊎ (interceptor auth next h ctx s ≡ (err unauthenticated, (auth.authenticate h s).1)))
  unfolding interceptor
  interceptor_guards next other agree =
      (admit_same next other (auth.authenticate h s) refl agree, refused (auth.authenticate h s))
    where
      refused :
          (r : AuthResult × S)
          → ((i : Identity) × (r.0 ≡ ok i)) ⊎ (admit auth next ctx r ≡ (err unauthenticated, r.1))
      refused (err e, t) = inr refl
      refused (ok i, t) = inl (i, refl)

  -- Behind `OptionalInterceptor` every call reaches the handler: with the identity attached where the
  -- authenticator gave one, and in the context as it came where it did not.
  pub optional_interceptor_cases :
      (next : Unary S R)
      → ((i : Identity) × ((auth.authenticate h s).0 ≡ ok i)
          × (optional_interceptor auth next h ctx s
              ≡ next (with_identity ctx i) (auth.authenticate h s).1))
        ⊎ ((e : AuthError) × ((auth.authenticate h s).0 ≡ err e)
            × (optional_interceptor auth next h ctx s ≡ next ctx (auth.authenticate h s).1))
  unfolding optional_interceptor
  optional_interceptor_cases next = by_result (auth.authenticate h s)
    where
      by_result :
          (r : AuthResult × S)
          → ((i : Identity) × (r.0 ≡ ok i)
              × (admit_any auth next ctx r ≡ next (with_identity ctx i) r.1))
            ⊎ ((e : AuthError) × (r.0 ≡ err e) × (admit_any auth next ctx r ≡ next ctx r.1))
      by_result (ok i, t) = inl (i, refl, refl)
      by_result (err e, t) = inr (e, refl, refl)
