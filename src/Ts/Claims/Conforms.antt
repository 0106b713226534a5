-- ===== src/Ts/Claims/Conforms.antt =====
-- The claims mapping of the two ports.
use gateway_auth.Prelude.{◌≡◌, ◌⊎◌, inl, inr, refl, ap, List, [], ◌∷◌, Option, none, some}
use gateway_auth.Text.{Bytes, codes}
use gateway_auth.Identity as GoIdentity
use gateway_auth.Identity.{Any, Anys, str, strs, arr, items}
use gateway_auth.Claims as Go
use gateway_auth.Ts.Strings.{Units, or_blank}
use gateway_auth.Ts.Identity.{
  Value, Values, string, array, nil, cons, Payload, Identity, includes, has_role, has_any_role,
}
use gateway_auth.Ts.Identity as Port
use gateway_auth.Ts.Claims.{
  Options, claims_mapper, property, string_claim, text_of, only_strings, strings_in, claim_values,
  identity_from_claims,
}

-- Elements of an array, as Go and as the port have them: the same string, or no string in either.
abbrev SameItem : Any → Value → Type 0
SameItem (str s) (string t) = s ≡ t
SameItem (str s) _ = ⊥
SameItem _ (string t) = ⊥
SameItem _ _ = Unit

SameItems : Anys → Values → Type 0
SameItems GoIdentity.nil nil = Unit
SameItems (GoIdentity.cons x xs) (cons v vs) = SameItem x v × SameItems xs vs
SameItems _ _ = ⊥

-- An array of strings, which jwx has as a `[]string`.
Lists : List Bytes → Values → Type 0
Lists [] nil = Unit
Lists (s ∷ ss) (cons (string t) vs) = (s ≡ t) × Lists ss vs
Lists _ _ = ⊥

-- A claim, as Go and as the port have it; a number, a time, an object or a null is neither a string nor
-- an array in either.
unfoldable pub SameClaim : Option Any → Option Value → Type 0
unfolding SameItems Lists
SameClaim none none = Unit
SameClaim (some (str s)) (some (string t)) = s ≡ t
SameClaim (some (strs ss)) (some (array vs)) = Lists ss vs
SameClaim (some (arr xs)) (some (array vs)) = SameItems xs vs
SameClaim (some (GoIdentity.other k)) (some (Port.other j)) = Unit
SameClaim _ _ = ⊥

-- The claim of the roles may also be a string that jwx has as a list of one, as it has a string `aud`.
abbrev pub SameRoles : Option Any → Option Value → Type 0
SameRoles o v = SameClaim o v ⊎ ((s : Bytes) × (o ≡ some (strs (s ∷ []))) × (v ≡ some (string s)))

-- One token, as far as a mapper with these options reads it: the three claims that it names, and the
-- subject, which is a string or is absent.
pub record SameToken (opts : Options) (t : Go.Token) (payload : Payload) : Type 0 where
  pub name :
      SameClaim
        (t.field (claims_mapper opts).name_claim)
        (property payload (claims_mapper opts).name_claim)
  pub email :
      SameClaim
        (t.field (claims_mapper opts).email_claim)
        (property payload (claims_mapper opts).email_claim)
  pub roles :
      SameRoles
        (t.field (claims_mapper opts).roles_claim)
        (property payload (claims_mapper opts).roles_claim)
  pub subject : Go.or_empty t.subject ≡ string_claim payload (codes "sub")

pub record SameIdentity (i : GoIdentity.Identity) (j : Identity) : Type 0 where
  pub subject : i.subject ≡ j.subject
  pub name : i.name ≡ j.name
  pub email : i.email ≡ j.email
  pub roles : items i.roles ≡ j.roles
  pub token : i.token ≡ j.token

strings_of-only_strings :
    (xs : Anys) (vs : Values) → SameItems xs vs → Go.strings_of xs ≡ only_strings vs
unfolding SameItems Go.strings_of only_strings
strings_of-only_strings GoIdentity.nil nil h = refl
strings_of-only_strings GoIdentity.nil (cons v vs) h = absurd h
strings_of-only_strings (GoIdentity.cons x xs) nil h = absurd h
strings_of-only_strings (GoIdentity.cons x xs) (cons v vs) (a, h) =
    same_item x v a (strings_of-only_strings xs vs h)
  where
    same_item :
        (y : Any) (w : Value)
        → SameItem y w
        → Go.strings_of xs ≡ only_strings vs
        → Go.strings_of (GoIdentity.cons y xs) ≡ only_strings (cons w vs)
    same_item (str s) (string t) e r = rw (e, r) refl
    same_item (str s) (array ws) e r = absurd e
    same_item (str s) (Port.other k) e r = absurd e
    same_item (strs ss) (string t) e r = absurd e
    same_item (strs ss) (array ws) e r = r
    same_item (strs ss) (Port.other k) e r = r
    same_item (arr ys) (string t) e r = absurd e
    same_item (arr ys) (array ws) e r = r
    same_item (arr ys) (Port.other k) e r = r
    same_item (GoIdentity.other j) (string t) e r = absurd e
    same_item (GoIdentity.other j) (array ws) e r = r
    same_item (GoIdentity.other j) (Port.other k) e r = r

Lists-only_strings : (ss : List Bytes) (vs : Values) → Lists ss vs → ss ≡ only_strings vs
unfolding Lists only_strings
Lists-only_strings [] nil h = refl
Lists-only_strings [] (cons v vs) h = absurd h
Lists-only_strings (s ∷ ss) nil h = absurd h
Lists-only_strings (s ∷ ss) (cons (string t) vs) (e, h) = rw (e, ← Lists-only_strings ss vs h) refl
Lists-only_strings (s ∷ ss) (cons (array ws) vs) h = absurd h
Lists-only_strings (s ∷ ss) (cons (Port.other k) vs) h = absurd h

-- What each port makes of one claim.
abbrev Read : Option Any → Option Value → Type 0
Read o v =
    (elim o as (λ _. Bytes) [ none ↦ [] | some raw ↦ Go.as_string raw ] ≡ text_of v)
    × (items (elim o as (λ _. GoIdentity.Strings) [ none ↦ none | some raw ↦ Go.strings_from raw ])
        ≡ strings_in v)

claim-Read : (o : Option Any) (v : Option Value) → SameClaim o v → Read o v
unfolding SameClaim Go.strings_from
claim-Read none none h = (refl, refl)
claim-Read none (some v) h = absurd h
claim-Read (some (str s)) none h = absurd h
claim-Read (some (strs ss)) none h = absurd h
claim-Read (some (arr xs)) none h = absurd h
claim-Read (some (GoIdentity.other j)) none h = absurd h
claim-Read (some (str s)) (some (string t)) h = (h, ap (λ u. u ∷ []) h)
claim-Read (some (str s)) (some (array vs)) h = absurd h
claim-Read (some (str s)) (some (Port.other k)) h = absurd h
claim-Read (some (strs ss)) (some (string t)) h = absurd h
claim-Read (some (strs ss)) (some (array vs)) h = (refl, Lists-only_strings ss vs h)
claim-Read (some (strs ss)) (some (Port.other k)) h = absurd h
claim-Read (some (arr xs)) (some (string t)) h = absurd h
claim-Read (some (arr xs)) (some (array vs)) h = (refl, strings_of-only_strings xs vs h)
claim-Read (some (arr xs)) (some (Port.other k)) h = absurd h
claim-Read (some (GoIdentity.other j)) (some (string t)) h = absurd h
claim-Read (some (GoIdentity.other j)) (some (array vs)) h = absurd h
claim-Read (some (GoIdentity.other j)) (some (Port.other k)) h = (refl, refl)

-- The mapper of Go, for the options of the port: what is left out there is "" here.
abbrev pub go_mapper : Options → Go.ClaimsMapper
go_mapper opts = record {
  name_claim = or_blank opts.name_claim;
  email_claim = or_blank opts.email_claim;
  roles_claim = or_blank opts.roles_claim;
}

roles-items :
    (o : Option Any) (v : Option Value)
    → SameRoles o v
    → items (elim o as (λ _. GoIdentity.Strings) [ none ↦ none | some raw ↦ Go.strings_from raw ])
      ≡ strings_in v
unfolding Go.strings_from
roles-items o v (inl h) = (claim-Read o v h).1
roles-items o v (inr (s, e, f)) = rw (e, f) refl

-- From the same claims, where the mapper reads them, under the same configuration, the two ports read the
-- same subject, name, email and token, and the same roles in the same order, whatever shape the claims
-- have.
pub identity_from_claims-identity :
    (opts : Options) (t : Go.Token) (payload : Payload) (raw : Units)
    → SameToken opts t payload
    → SameIdentity
        (Go.identity (go_mapper opts) t raw)
        (identity_from_claims (claims_mapper opts) payload raw)
unfolding Go.identity Go.with_defaults Go.string_claim Go.claim_values claims_mapper
    identity_from_claims string_claim claim_values
identity_from_claims-identity opts t payload raw same_token = record {
  subject = same_token.subject;
  name = (claim-Read _ _ same_token.name).0;
  email = (claim-Read _ _ same_token.email).0;
  roles = roles-items _ _ same_token.roles;
  token = refl;
}
