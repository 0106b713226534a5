-- ===== src/Claims.antt =====
-- claims.go: from the claims of a verified token to an identity.
pub mod Shapes
pub mod Mapping
pub mod Tests
use gateway_auth.Prelude.{
  Bool, true, false, List, [], ◌∷◌, Option, none, some, if◌then◌else◌, is_empty,
}
use gateway_auth.Text.{Bytes, codes}
use gateway_auth.Identity.{Any, Anys, str, strs, arr, other, nil, cons, Strings, Claims, Identity}

-- The methods of jwx's `jwt.Token` that the library calls.
pub record Token : Type 0 where
  pub subject : Option Bytes
  pub field : Bytes → Option Any
  pub keys : List Bytes

-- `s, _ := ...`: the zero value where there is none.
abbrev pub or_empty : Option Bytes → Bytes
or_empty none = []
or_empty (some s) = s

pub record ClaimsMapper : Type 0 where
  pub name_claim : Bytes
  pub email_claim : Bytes
  pub roles_claim : Bytes

-- `if s == "" { s = fallback }`.
abbrev pub default_to : Bytes → Bytes → Bytes
default_to fallback s = if is_empty s then fallback else s

unfoldable pub with_defaults : ClaimsMapper → ClaimsMapper
with_defaults m = record {
  name_claim = default_to (codes "name") m.name_claim;
  email_claim = default_to (codes "email") m.email_claim;
  roles_claim = default_to (codes "groups") m.roles_claim;
}

-- The loop of `claimsMap`. A key is listed once, so each write is a new entry.
collect : Token → List Bytes → List (Bytes × Any)
collect t [] = []
collect t (key ∷ keys) =
    let rest = collect t keys in
    elim (t.field key) [ none ↦ rest | some value ↦ (key, value) ∷ rest ]

unfoldable pub claims_map : Token → Claims
unfolding collect
claims_map t = if is_empty t.keys then none else some (collect t t.keys)

-- `value, _ := raw.(string)`.
abbrev pub as_string : Any → Bytes
as_string (str s) = s
as_string _ = []

unfoldable pub string_claim : Token → Bytes → Bytes
string_claim t name = elim (t.field name) [ none ↦ [] | some raw ↦ as_string raw ]

-- The loop over a `[]any`: the strings of it.
unfoldable pub strings_of : Anys → List Bytes
strings_of nil = []
strings_of (cons (str s) rest) = s ∷ strings_of rest
strings_of (cons _ rest) = strings_of rest

unfoldable pub strings_from : Any → Strings
unfolding strings_of
strings_from (str s) = some (s ∷ [])
strings_from (strs ss) = some ss
strings_from (arr xs) = some (strings_of xs)
strings_from (other k) = none

unfoldable pub claim_values : Token → Bytes → Strings
unfolding strings_from
claim_values t name = elim (t.field name) [ none ↦ none | some raw ↦ strings_from raw ]

unfoldable pub identity : ClaimsMapper → Token → Bytes → Identity
unfolding with_defaults string_claim claim_values claims_map
identity mapper t raw =
    let m = with_defaults mapper in
    record {
      subject = or_empty t.subject;
      name = string_claim t m.name_claim;
      email = string_claim t m.email_claim;
      roles = claim_values t m.roles_claim;
      token = raw;
      claims = claims_map t;
    }
