-- ===== src/Claims/Tests.antt =====
-- Runs and instances of the claims' mapping.
use gateway_auth.Prelude.{
  ◌≡◌, refl, ◌↔◌, inl, inr, true, [], ◌∷◌, none, some, if◌then◌else◌, Bool-cases, sym,
}
use gateway_auth.Text.{codes, same, same_iff}
use gateway_auth.Identity.{str, arr, other, nil, cons, has_role}
use gateway_auth.Claims.{Token, ClaimsMapper, with_defaults, strings_from, identity}
use gateway_auth.Claims.Mapping.{GrantsIn, has_role-identity, ListsKeys}

-- The table of `TestStringsFrom`.
shapes_runs :
    (strings_from (str (codes "a")) ≡ some (codes "a" ∷ []))
    × (strings_from (arr (cons (str (codes "a")) (cons (other 42) nil))) ≡ some (codes "a" ∷ []))
    × (strings_from (arr nil) ≡ some [])
    × (strings_from (other 42) ≡ none)
unfolding strings_from
shapes_runs = (refl, refl, refl, refl)

abbrev zero_mapper : ClaimsMapper
zero_mapper = record { name_claim = []; email_claim = []; roles_claim = [] }

-- A token with one claim, "groups".
abbrev grouped : Token
grouped = record {
  subject = some (codes "u1");
  field = λ name.
      if same name (codes "groups")
      then some (arr (cons (str (codes "ops")) (cons (other 1) nil)))
      else none;
  keys = codes "groups" ∷ [];
}

grouped-ListsKeys : ListsKeys grouped
grouped-ListsKeys key = elim (Bool-cases (same key (codes "groups"))) [
  | inl e ↦ inr (inl (sym ((same_iff key (codes "groups")).0 e)))
  | inr e ↦ inl (rw e refl)
]

has_role-identity_example :
    (has_role (identity zero_mapper grouped (codes "t")) (codes "ops") ≡ true)
    ↔ GrantsIn (codes "ops") (grouped.field (with_defaults zero_mapper).roles_claim)
has_role-identity_example = has_role-identity zero_mapper grouped (codes "t") (codes "ops")
