-- ===== src/Source/Tests.antt =====
-- Runs and instances of the token sources.
use gateway_auth.Prelude.{◌≡◌, refl, List, [], ◌∷◌, none, some, if◌then◌else◌, arith}
use gateway_auth.Text.{Bytes, codes, same}
use gateway_auth.Text.Space.{trim_space, has_space_front, has_space_back}
use gateway_auth.Text.Split.{equal_fold, split}
use gateway_auth.Identity.{Headers}
use gateway_auth.Source.{
  HeaderSource, header_token, token, Sources, nil, cons, header_source, default_source,
  split_and_trim, forward_authorization, header_authorization, header_access_token,
}
use gateway_auth.Source.Bearer.{IsToken, header_token_scheme}
use gateway_auth.Source.Forward.{forward_authorization-default_source, downstream}

abbrev bearer_source : HeaderSource
bearer_source = record { name = header_authorization; scheme = codes "Bearer" }

-- A direct caller, who spells the scheme in lower case.
abbrev direct : Headers
direct name = if same name header_authorization then codes " bearer abc " else []

abbrev exact : Headers
exact name = if same name header_authorization then codes "bearer abc" else []

-- A request from the gateway.
abbrev fronted : Headers
fronted name = if same name header_access_token then codes "tok" else []

direct_reads : header_token bearer_source direct ≡ some (codes "abc")
unfolding header_token trim_space same equal_fold
direct_reads = refl

no_scheme : header_token bearer_source (λ n. codes "Basic abc") ≡ none
unfolding header_token trim_space same equal_fold
no_scheme = refl

forward_runs :
    (forward_authorization fronted ≡ codes "Bearer tok")
    × (forward_authorization direct ≡ codes "bearer abc")
unfolding forward_authorization trim_space same
forward_runs = (refl, refl)

groups_run :
    (split_and_trim (codes " a, ,b ") 44 ≡ some (codes "a" ∷ codes "b" ∷ []))
    × (split_and_trim (codes " , ") 44 ≡ none)
unfolding split_and_trim split trim_space
groups_run = (refl, refl)

-- A no-break space is trimmed, a lone byte of its encoding is not.
unicode_space :
    (trim_space (0xc2 ∷ 0xa0 ∷ 97 ∷ 0xe2 ∷ 0x80 ∷ 0x8a ∷ []) ≡ 97 ∷ [])
    × (trim_space (0xa0 ∷ 97 ∷ []) ≡ 0xa0 ∷ 97 ∷ [])
unfolding trim_space
unicode_space = (refl, refl)

abc-IsToken : IsToken (codes "abc")
unfolding has_space_front has_space_back
abc-IsToken = ((λ e. cc), (refl, refl))

header_token_scheme_example : header_token bearer_source exact ≡ some (codes "abc")
unfolding equal_fold same
header_token_scheme_example =
    header_token_scheme bearer_source exact (codes "bearer") (codes "abc") (omega arith, refl) refl
      abc-IsToken refl

forward_authorization-default_source_example :
    token default_source (downstream fronted) ≡ token default_source fronted
unfolding trim_space same
forward_authorization-default_source_example = forward_authorization-default_source fronted refl

abbrev two_sources : Sources
two_sources = cons (header_source bearer_source) (cons default_source nil)

abbrev two_roles : List Bytes
two_roles = codes "ops" ∷ codes "dev" ∷ []
