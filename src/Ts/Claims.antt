-- ===== src/Ts/Claims.antt =====
-- ts/src/claims.ts: from the payload of a verified token to an identity.
pub mod Conforms
use gateway_auth.Prelude.{
  Bool, true, false, List, [], ◌∷◌, Option, none, some, if◌then◌else◌, is_empty,
}
use gateway_auth.Text.{codes, same}
use gateway_auth.Ts.Strings.{Units, or_blank}
use gateway_auth.Ts.Identity.{Value, Values, string, array, other, nil, cons, Payload, Identity}

pub record ClaimsMapper : Type 0 where
  pub name_claim : Units
  pub email_claim : Units
  pub roles_claim : Units

-- `Partial<ClaimsMapper>`.
pub record Options : Type 0 where
  pub name_claim : Option Units
  pub email_claim : Option Units
  pub roles_claim : Option Units

-- `s || fallback`: an empty string falls back as `undefined` does.
abbrev pub or_fallback : Option Units → Units → Units
or_fallback s fallback = if is_empty (or_blank s) then fallback else or_blank s

unfoldable pub claims_mapper : Options → ClaimsMapper
claims_mapper opts = record {
  name_claim = or_fallback opts.name_claim (codes "name");
  email_claim = or_fallback opts.email_claim (codes "email");
  roles_claim = or_fallback opts.roles_claim (codes "groups");
}

-- `payload[name]`. What an object inherits is neither a string nor an array, so it is left out.
unfoldable pub property : Payload → Units → Option Value
property [] name = none
property ((n, value) ∷ payload) name = if same n name then some value else property payload name

-- `typeof value === "string" ? value : ""`.
abbrev pub text_of : Option Value → Units
text_of (some (string s)) = s
text_of _ = []

unfoldable pub string_claim : Payload → Units → Units
unfolding property
string_claim payload name = text_of (property payload name)

-- `raw.filter((item) => typeof item === "string")`.
unfoldable pub only_strings : Values → List Units
only_strings nil = []
only_strings (cons (string s) rest) = s ∷ only_strings rest
only_strings (cons _ rest) = only_strings rest

abbrev pub strings_in : Option Value → List Units
strings_in (some (string s)) = s ∷ []
strings_in (some (array values)) = only_strings values
strings_in _ = []

unfoldable pub claim_values : Payload → Units → List Units
unfolding property only_strings
claim_values payload name = strings_in (property payload name)

unfoldable pub identity_from_claims : ClaimsMapper → Payload → Units → Identity
unfolding string_claim claim_values
identity_from_claims mapper payload raw = record {
  subject = string_claim payload (codes "sub");
  name = string_claim payload mapper.name_claim;
  email = string_claim payload mapper.email_claim;
  roles = claim_values payload mapper.roles_claim;
  token = raw;
  claims = payload;
}
