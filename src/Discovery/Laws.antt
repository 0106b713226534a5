-- ===== src/Discovery/Laws.antt =====
-- When discovery succeeds, and where it asks.
use gateway_auth.Prelude.{
  ℕ, ◌≡◌, ◌≢◌, refl, ap, ◌↔◌, inl, inr, true, [], ◌∷◌, ◌++◌, none, ok, ◌>>=◌, map_err, arith, ◌==◌,
  >>=-eq-ok, map_err-eq-ok, Bool-cases, is_empty, is_empty-false, ne-nil_of_is_empty,
}
use gateway_auth.Text.{Bytes, same, same_iff}
use gateway_auth.Text.Split.{trim_suffix}
use gateway_auth.Http.{Body, Exchange, not_built, failed, answered, Network, status_ok}
use gateway_auth.Discovery.{
  Endpoints, Document, Decoder, decode_document, well_known, check_document, receive_document,
  discover,
}

abbrev Finds : Bytes → Document → Endpoints → Type 0
Finds issuer d found =
    (d.issuer ≡ issuer)
    × (d.jwks_uri ≢ [])
    × (found ≡ record { jwks_uri = d.jwks_uri; userinfo_uri = d.userinfo_uri })

check_document_sound :
    (issuer : Bytes) (d : Document) (found : Endpoints)
    → check_document issuer d ≡ ok found
    → Finds issuer d found
unfolding check_document
check_document_sound issuer d found h = elim (Bool-cases (same d.issuer issuer)) [
  | inr other ↦ ground arith
  | inl e ↦ elim (Bool-cases (is_empty d.jwks_uri)) [
    | inl missing ↦ ground arith
    | inr here ↦ ((same_iff d.issuer issuer).0 e, ne-nil_of_is_empty d.jwks_uri here, ground arith)
  ]
]

check_document_complete :
    (issuer : Bytes) (d : Document) (found : Endpoints)
    → Finds issuer d found
    → check_document issuer d ≡ ok found
unfolding check_document
check_document_complete issuer d found (e, ne, m) =
    rw ((same_iff d.issuer issuer).1 e, is_empty-false d.jwks_uri ne, m) refl

-- The provider answers at the well-known URL with status 200 and a document that declares the very
-- issuer that was asked for, and a URL for its keys.
abbrev pub Declares : Decoder → Network → Bytes → Endpoints → Type 0
Declares decode net issuer found =
    (body : Body) × (d : Document) × (net (record { url = well_known issuer; authorization = none })
      ≡ answered status_ok body)
    × (decode body ≡ ok d)
    × Finds issuer d found

receive_document_sound :
    (decode : Decoder) (issuer : Bytes) (x : Exchange) (found : Endpoints)
    → receive_document decode issuer x ≡ ok found
    → (body : Body) × (d : Document) × (x ≡ answered status_ok body)
      × (decode body ≡ ok d)
      × Finds issuer d found
unfolding receive_document
receive_document_sound decode issuer (not_built e) found h = cc
receive_document_sound decode issuer (failed e) found h = cc
receive_document_sound decode issuer (answered status body) found h =
    elim (Bool-cases (status == status_ok)) [
      | inl e ↦
          let is_ok : status ≡ status_ok = ground arith in
          let (d, f, k) = >>=-eq-ok _ _ (checked e) in
          (
            body,
            d,
            ap (λ s. answered s body) is_ok,
            map_err-eq-ok decode_document _ f,
            check_document_sound issuer d found k,
          )
      | inr e ↦ ground arith
    ]
  where
    checked :
        (status == status_ok) ≡ true
        → (map_err decode_document (decode body) >>= check_document issuer) ≡ ok found
    checked e = rw e at h

-- Discovery succeeds exactly when the provider declares the configured issuer, to the byte, and a URL
-- for its keys; the endpoints are those of the document.
pub discover_iff :
    (decode : Decoder) (net : Network) (issuer : Bytes) (found : Endpoints)
    → (discover decode net issuer ≡ ok found) ↔ Declares decode net issuer found
unfolding discover
discover_iff decode net issuer found = (
  receive_document_sound decode issuer _ found,
  λ (body, d, e, f, k). rw (e, f) (check_document_complete issuer d found k),
)

trim_suffix-append : (s : Bytes) (b : ℕ) → trim_suffix (s ++ b ∷ []) b ≡ s
unfolding trim_suffix
trim_suffix-append [] b = ground arith
trim_suffix-append (c ∷ []) b = ground arith
trim_suffix-append (c ∷ d ∷ s) b = ap (◌∷◌ c) (trim_suffix-append (d ∷ s) b)

-- An issuer with one slash behind it is asked at the same URL as the issuer without.
pub well_known_slash :
    (issuer : Bytes)
    → trim_suffix issuer b'/' ≡ issuer
    → well_known (issuer ++ b'/' ∷ []) ≡ well_known issuer
unfolding well_known
well_known_slash issuer h = rw (trim_suffix-append issuer b'/', h) refl
