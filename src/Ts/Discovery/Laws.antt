-- ===== src/Ts/Discovery/Laws.antt =====
-- When the port's discovery succeeds.
use gateway_auth.Prelude.{
  ℕ, ◌≡◌, ◌≢◌, refl, ap, ◌↔◌, true, [], Option, none, some, ok, err, is_empty, is_empty-false,
  ne-nil_of_is_empty, Bool-cases, inl, inr, arith,
}
use gateway_auth.Text.{same_iff}
use gateway_auth.Ts.Strings.{Units, or_blank}
use gateway_auth.Ts.Userinfo.{is_ok}
use gateway_auth.Ts.Discovery.{
  Endpoints, Document, null, document, Response, failed, answered, Fetch, well_known, declares,
  check_document, read_reply, receive, discover,
}

declares_iff : (o : Option Units) (issuer : Units) → (declares o issuer ≡ true) ↔ (o ≡ some issuer)
declares_iff none issuer = ((λ h. cc), (λ h. cc))
declares_iff (some s) issuer =
    ((λ h. ap some ((same_iff s issuer).0 h)), (λ h. (same_iff s issuer).1 (cc)))

abbrev pub Finds : Units → Document → Endpoints → Type 0
Finds issuer d found =
    (d.issuer ≡ some issuer)
    × (or_blank d.jwks_uri ≢ [])
    × (found
        ≡ record { jwks_uri = or_blank d.jwks_uri; userinfo_uri = or_blank d.userinfo_endpoint })

check_document_sound :
    (issuer : Units) (d : Document) (found : Endpoints)
    → check_document issuer d ≡ ok found
    → Finds issuer d found
unfolding check_document
check_document_sound issuer d found h = elim (Bool-cases (declares d.issuer issuer)) [
  | inr other ↦ ground arith
  | inl e ↦ elim (Bool-cases (is_empty (or_blank d.jwks_uri))) [
    | inl missing ↦ ground arith
    | inr here ↦ (
      (declares_iff d.issuer issuer).0 e,
      ne-nil_of_is_empty (or_blank d.jwks_uri) here,
      ground arith,
    )
  ]
]

check_document_complete :
    (issuer : Units) (d : Document) (found : Endpoints)
    → Finds issuer d found
    → check_document issuer d ≡ ok found
unfolding check_document
check_document_complete issuer d found (e, ne, m) =
    rw ((declares_iff d.issuer issuer).1 e, is_empty-false (or_blank d.jwks_uri) ne, m) refl

-- The provider answers at the well-known URL, with a status from 200 to 299 and a document that
-- declares the very issuer, and a URL for its keys.
abbrev pub Declares : Fetch → Units → Endpoints → Type 0
Declares fetch issuer found =
    (status : ℕ) × (d : Document) × (fetch (well_known issuer) ≡ answered status (ok (document d)))
    × (is_ok status ≡ true)
    × Finds issuer d found

receive_sound :
    (issuer : Units) (x : Response) (found : Endpoints)
    → receive issuer x ≡ ok found
    → (status : ℕ) × (d : Document) × (x ≡ answered status (ok (document d)))
      × (is_ok status ≡ true)
      × Finds issuer d found
unfolding receive read_reply
receive_sound issuer (failed e) found h = cc
receive_sound issuer (answered status (err e)) found h = ground arith
receive_sound issuer (answered status (ok null)) found h = ground arith
receive_sound issuer (answered status (ok (document d))) found h =
    elim (Bool-cases (is_ok status)) [
      | inl s ↦ (status, d, refl, s, check_document_sound issuer d found (rw s at h))
      | inr s ↦ ground arith
    ]

-- Discovery of the port succeeds exactly when the provider declares the configured issuer and a URL for
-- its keys; the endpoints are those of the document.
pub discover_iff :
    (fetch : Fetch) (issuer : Units) (found : Endpoints)
    → (discover fetch issuer ≡ ok found) ↔ Declares fetch issuer found
unfolding discover receive read_reply
discover_iff fetch issuer found = (
  receive_sound issuer (fetch (well_known issuer)) found,
  λ (status, d, e, s, k). rw (e, s) (check_document_complete issuer d found k),
)
