-- ===== src/Ts/Source.antt =====
-- ts/src/source.ts, with `Headers` of ts/src/identity.ts.
pub mod Conforms
use gateway_auth.Prelude.{
  ℕ, ◌++◌, Bool, true, false, ◌||◌, not, List, [], ◌∷◌, Option, none, some, if◌then◌else◌, ltb,
  length, take, drop, is_empty,
}
use gateway_auth.Text.{codes, same}
use gateway_auth.Text.Split.{split}
use gateway_auth.Ts.Strings.{Units, or_blank, trim, to_lower_case}

-- `headers.get(name)`.
abbrev pub Headers : Type 0
Headers = Units → Option Units

abbrev pub access_token : Units
access_token = codes "x-auth-request-access-token"

abbrev pub user : Units
user = codes "x-auth-request-user"

abbrev pub email : Units
email = codes "x-auth-request-email"

abbrev pub groups : Units
groups = codes "x-auth-request-groups"

abbrev pub authorization : Units
authorization = codes "authorization"

abbrev pub TokenSource : Type 0
TokenSource = Headers → Option Units

-- `s === "" ? undefined : s`.
abbrev pub unless_blank : Units → Option Units
unless_blank s = if is_empty s then none else some s

-- One round of the loop of `chain`.
abbrev pub or_next : Option Units → Option Units → Option Units
or_next (some raw) rest = some raw
or_next none rest = rest

-- `chain(...sources)`.
unfoldable pub chain : List TokenSource → TokenSource
chain [] headers = none
chain (source ∷ sources) headers = or_next (source headers) (chain sources headers)

module _ (lower_other : Units → Units) where
  -- What is behind the scheme.
  strip_scheme : Units → Units → Option Units
  unfolding to_lower_case trim
  strip_scheme prefix value =
      if ltb (length value) (length prefix)
        || not (
            same (to_lower_case lower_other (take (length prefix) value))
              (to_lower_case lower_other prefix))
      then none
      else unless_blank (trim (drop (length prefix) value))

  read_value : Option Units → Units → Option Units
  unfolding strip_scheme
  read_value scheme value =
      if is_empty value
      then none
      else if is_empty (or_blank scheme)
      then some value
      else strip_scheme (or_blank scheme ++ codes " ") value

  -- `headerSource(name, scheme)`; a scheme that is left out is `none`.
  unfoldable pub header_source : Units → Option Units → TokenSource
  unfolding read_value
  header_source name scheme headers = read_value scheme (trim (or_blank (headers name)))

  unfoldable pub oauth2_proxy_access_token : TokenSource
  unfolding header_source
  oauth2_proxy_access_token = header_source access_token none

  unfoldable pub authorization_bearer : TokenSource
  unfolding header_source
  authorization_bearer = header_source authorization (some (codes "Bearer"))

  unfoldable pub default_source : TokenSource
  unfolding chain oauth2_proxy_access_token authorization_bearer
  default_source = chain (oauth2_proxy_access_token ∷ authorization_bearer ∷ [])

-- `.map((part) => part.trim()).filter((part) => part !== "")`.
keep_trimmed : List Units → List Units
keep_trimmed [] = []
keep_trimmed (part ∷ parts) =
    let rest = keep_trimmed parts in
    let trimmed = trim part in if is_empty trimmed then rest else trimmed ∷ rest

-- `splitAndTrim(value, sep)`, for a separator of one unit.
unfoldable pub split_and_trim : Units → ℕ → List Units
unfolding keep_trimmed
split_and_trim value sep = keep_trimmed (split value sep)
