-- ===== src/Source.antt =====
-- source.go: where a raw token is read from.
pub mod Chain
pub mod Bearer
pub mod Forward
pub mod Groups
pub mod Tests
use gateway_auth.Prelude.{
  ℕ, ◌++◌, Bool, true, false, ◌||◌, ◌&&◌, List, [], ◌∷◌, Option, none, some, if◌then◌else◌, ltb,
  length, take, drop, is_empty, not,
}
use gateway_auth.Text.{Bytes, codes}
use gateway_auth.Text.Space.{trim_space}
use gateway_auth.Text.Split.{equal_fold, split}
use gateway_auth.Identity.{Headers}

abbrev pub header_access_token : Bytes
header_access_token = codes "X-Auth-Request-Access-Token"

abbrev pub header_user : Bytes
header_user = codes "X-Auth-Request-User"

abbrev pub header_email : Bytes
header_email = codes "X-Auth-Request-Email"

abbrev pub header_groups : Bytes
header_groups = codes "X-Auth-Request-Groups"

abbrev pub header_authorization : Bytes
header_authorization = codes "Authorization"

pub record HeaderSource : Type 0 where
  pub name : Bytes
  pub scheme : Bytes

-- A `TokenSource`: one of the two of the package, or a service's own.
mutual
  pub data TokenSource : Type 0 where
    header_source : HeaderSource → TokenSource
    chain_source : Sources → TokenSource
    custom_source : (Headers → Option Bytes) → TokenSource

  pub data Sources : Type 0 where
    nil : Sources
    cons : TokenSource → Sources → Sources

-- `return token, token != ""`.
abbrev pub non_empty : Bytes → Option Bytes
non_empty s = if is_empty s then none else some s

-- What `Token` does with a value that is not empty, for a scheme that is not.
unfoldable pub strip_scheme : Bytes → Bytes → Option Bytes
strip_scheme prefix value =
    if ltb (length value) (length prefix) || not (equal_fold (take (length prefix) value) prefix)
    then none
    else non_empty (trim_space (drop (length prefix) value))

-- `HeaderSource.Token` behind the call of `TrimSpace`.
unfoldable pub read_value : Bytes → Bytes → Option Bytes
unfolding strip_scheme
read_value scheme value =
    if is_empty value
    then none
    else if is_empty scheme
    then some value
    else strip_scheme (scheme ++ codes " ") value

-- `HeaderSource.Token`; a result `(_, false)` is `none`.
unfoldable pub header_token : HeaderSource → Headers → Option Bytes
unfolding read_value
header_token s h = read_value s.scheme (trim_space (h s.name))

-- One round of the loop of `ChainSource.Token`: a token found ends it.
abbrev pub or_else : Option Bytes → Option Bytes → Option Bytes
or_else (some raw) rest = some raw
or_else none rest = rest

-- `source.Token(h)`; the loop of `ChainSource.Token` is `first_token`.
unfoldable mutual
  pub token : TokenSource → Headers → Option Bytes
  token (header_source s) h = header_token s h
  token (chain_source c) h = first_token c h
  token (custom_source f) h = f h

  pub first_token : Sources → Headers → Option Bytes
  first_token nil h = none
  first_token (cons s c) h = or_else (token s h) (first_token c h)

unfoldable pub oauth2_proxy_access_token : TokenSource
oauth2_proxy_access_token = header_source (record { name = header_access_token; scheme = [] })

unfoldable pub authorization_bearer : TokenSource
authorization_bearer =
    header_source (record { name = header_authorization; scheme = codes "Bearer" })

unfoldable pub default_source : TokenSource
unfolding oauth2_proxy_access_token authorization_bearer
default_source = chain_source (cons oauth2_proxy_access_token (cons authorization_bearer nil))

-- The loop of `splitAndTrim`: what each part appends.
unfoldable pub keep_trimmed : List Bytes → List Bytes
keep_trimmed [] = []
keep_trimmed (part ∷ parts) =
    let rest = keep_trimmed parts in
    let trimmed = trim_space part in if is_empty trimmed then rest else trimmed ∷ rest

-- `if len(out) == 0 { return nil }`.
abbrev pub nil_if_empty : List Bytes → Option (List Bytes)
nil_if_empty [] = none
nil_if_empty (x ∷ xs) = some (x ∷ xs)

unfoldable pub split_and_trim : Bytes → ℕ → Option (List Bytes)
unfolding keep_trimmed
split_and_trim s sep = nil_if_empty (keep_trimmed (split s sep))

unfoldable pub forward_authorization : Headers → Bytes
forward_authorization h =
    let a = trim_space (h header_authorization) in
    let t = trim_space (h header_access_token) in
    if not (is_empty a) then a else if not (is_empty t) then codes "Bearer " ++ t else []
