-- ===== src/Trust/Laws.antt =====
-- What the header-trust authenticator makes of the proxy's headers.
use gateway_auth.Prelude.{
  ◌≡◌, ◌≢◌, refl, ◌↔◌, inl, inr, true, false, ◌&&◌, List, [], ◌∷◌, some, ok, err, arith,
  if◌then◌else◌, is_empty, All, Any, Bool-cases, is_empty-false, ◌⊎◌,
}
use gateway_auth.Text.{Bytes}
use gateway_auth.Text.Split.{join}
use gateway_auth.Identity.{Identity, Headers, no_credential, has_role}
use gateway_auth.Identity.Roles.{has_role_iff}
use gateway_auth.Source.{header_user, header_email, header_groups, split_and_trim}
use gateway_auth.Source.Groups.{IsEntry, split_and_trim-join}
use gateway_auth.Trust.{trust_headers}

named : (s m : Bytes) → (is_empty s && is_empty m) ≡ false → (if is_empty s then m else s) ≢ []
named [] [] e = cc
named [] (c ∷ m) e = λ z. cc
named (c ∷ s) m e = λ z. cc

both_empty : (s m : Bytes) → (is_empty s && is_empty m) ≡ true → (s ≡ []) × (m ≡ [])
both_empty [] [] e = (refl, refl)
both_empty [] (c ∷ m) e = cc
both_empty (c ∷ s) m e = cc

-- Header trust refuses exactly the requests with neither a user nor an email header, and as
-- `ErrNoCredential`; every identity that it makes has a name, and the subject of the user header.
pub trust_headers_iff :
    (h : Headers)
    → ((trust_headers h ≡ err no_credential) ↔ ((h header_user ≡ []) × (h header_email ≡ [])))
      × ((trust_headers h ≡ err no_credential)
          ⊎ ((i : Identity) × (trust_headers h ≡ ok i)
              × (i.name ≢ [])
              × (i.subject ≡ h header_user)))
unfolding trust_headers
trust_headers_iff h = elim (Bool-cases (is_empty (h header_user) && is_empty (h header_email))) [
  | inl e ↦
      let (u, m) = both_empty (h header_user) (h header_email) e in
      rw e (((λ _. (u, m)), (λ _. refl)), inl refl)
  | inr e ↦ rw e (
    ((λ q. cc), (λ both. absurd (not_both both.0 both.1 e))),
    inr (_, refl, named (h header_user) (h header_email) e, refl),
  )
]
  where
    not_both :
        h header_user ≡ []
        → h header_email ≡ []
        → (is_empty (h header_user) && is_empty (h header_email)) ≡ false
        → ⊥
    not_both u m e = ground arith

-- Behind a proxy that names a user and lists roles, at least one, each not empty, trimmed and free of
-- commas, with commas between them, the caller holds exactly the listed roles.
pub trust_headers_roles :
    (h : Headers) (roles : List Bytes) (role : Bytes)
    → h header_user ≢ []
    → roles ≢ []
    → All (IsEntry b',') roles
    → h header_groups ≡ join roles b','
    → (i : Identity) × (trust_headers h ≡ ok i)
      × ((has_role i role ≡ true) ↔ Any (λ r. r ≡ role) roles)
unfolding trust_headers
trust_headers_roles h roles role u ne es g =
    let read : split_and_trim (h header_groups) b',' ≡ some roles =
      rw g (split_and_trim-join roles b',' ne es) in
    rw (is_empty-false (h header_user) u, read) (_, refl, has_role_iff _ role)
