-- ===== src/Source/Forward.antt =====
-- `DefaultSource`, and what `ForwardAuthorization` hands on.
use gateway_auth.Prelude.{
  ◌≡◌, ◌≢◌, refl, sym, ◌∙◌, [], ◌∷◌, ◌++◌, none, some, arith, if◌then◌else◌, subst,
}
use gateway_auth.Text.{Bytes, codes, same}
use gateway_auth.Text.Space.{trim_space, IsTrimmed, trim_space-IsTrimmed, trim_space_of_IsTrimmed}
use gateway_auth.Text.Split.{equal_fold_refl}
use gateway_auth.Identity.{Headers}
use gateway_auth.Source.Bearer.{IsToken, scheme-IsTrimmed, read_value-append}
use gateway_auth.Source.{
  read_value, header_token, token, header_authorization, header_access_token, default_source,
  forward_authorization, or_else,
}

-- A downstream request that carries what `ForwardAuthorization` renders, and no other credential.
abbrev pub downstream : Headers → Headers
downstream h name = if same name header_authorization then forward_authorization h else []

default_source_lem :
    (h : Headers)
    → token default_source h
      ≡ or_else
          (read_value [] (trim_space (h header_access_token)))
          (or_else (read_value (codes "Bearer") (trim_space (h header_authorization))) none)
unfolding token default_source header_token
default_source_lem h = refl

read_value-nil : (scheme : Bytes) → read_value scheme [] ≡ none
unfolding read_value
read_value-nil scheme = refl

-- The proxy's header, where it is not blank, is what `DefaultSource` reads, whatever else the request
-- carries.
pub default_source_proxy :
    (h : Headers) (t : Bytes)
    → trim_space (h header_access_token) ≡ t
    → t ≢ []
    → token default_source h ≡ some t
default_source_proxy h [] e ne = absurd (ne refl)
default_source_proxy h (c ∷ t) e ne = default_source_lem h ∙ (unfold read_value in rw e refl)

downstream_lem :
    (h : Headers)
    → token default_source (downstream h)
      ≡ or_else (read_value (codes "Bearer") (trim_space (forward_authorization h))) none
downstream_lem h = default_source_lem (downstream h) ∙ (unfold same trim_space read_value in refl)

abbrev bearer : Bytes
bearer = codes "Bearer"

bearer_trimmed : (t : Bytes) → IsToken t → trim_space (bearer ++ 32 ∷ t) ≡ bearer ++ 32 ∷ t
bearer_trimmed t k =
    trim_space_of_IsTrimmed _
      (scheme-IsTrimmed bearer bearer t (omega arith, refl) (equal_fold_refl bearer) k).1

forward_none :
    (h : Headers)
    → trim_space (h header_authorization) ≡ []
    → trim_space (h header_access_token) ≡ []
    → token default_source (downstream h) ≡ token default_source h
unfolding forward_authorization trim_space
forward_none h e f =
    let reads : token default_source h ≡ or_else (read_value bearer []) none =
      default_source_lem h ∙ rw (e, f) (rw (read_value-nil) refl) in
    let sends : token default_source (downstream h) ≡ or_else (read_value bearer []) none =
      downstream_lem h ∙ rw (e, f) refl in
    sends ∙ sym reads

forward_some :
    (h : Headers) (t : Bytes)
    → trim_space (h header_authorization) ≡ []
    → trim_space (h header_access_token) ≡ t
    → IsToken t
    → token default_source (downstream h) ≡ some t
unfolding forward_authorization
forward_some h [] e f (ne, _) = absurd (ne refl)
forward_some h (c ∷ t) e f k =
    let reads : read_value bearer (bearer ++ 32 ∷ c ∷ t) ≡ some (c ∷ t) =
      read_value-append bearer bearer (c ∷ t) (omega arith, refl) (λ z. cc) (equal_fold_refl bearer)
        k in
    let sends : trim_space (forward_authorization h) ≡ bearer ++ 32 ∷ c ∷ t =
      rw (e, f) (bearer_trimmed (c ∷ t) k) in
    downstream_lem h ∙ rw (sends, reads) refl

forward_cases :
    (h : Headers) (t : Bytes)
    → trim_space (h header_authorization) ≡ []
    → trim_space (h header_access_token) ≡ t
    → token default_source (downstream h) ≡ token default_source h
forward_cases h [] e f = forward_none h e f
forward_cases h (c ∷ t) e f =
    let k : IsTrimmed (c ∷ t) = subst IsTrimmed f (trim_space-IsTrimmed (h header_access_token)) in
    forward_some h (c ∷ t) e f ((λ z. cc), k) ∙ sym (default_source_proxy h (c ∷ t) f (λ z. cc))

-- Behind the gateway (a request with no Authorization header), the downstream service reads the
-- very token that this service reads, and reads none if this one reads none.
pub forward_authorization-default_source :
    (h : Headers)
    → trim_space (h header_authorization) ≡ []
    → token default_source (downstream h) ≡ token default_source h
forward_authorization-default_source h e =
    forward_cases h (trim_space (h header_access_token)) e refl
