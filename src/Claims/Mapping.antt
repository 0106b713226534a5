-- ===== src/Claims/Mapping.antt =====
-- What `ClaimsMapper.identity` reads off a token.
use gateway_auth.Prelude.{
  ◌≡◌, ◌≢◌, refl, ◌∙◌, sym, ◌↔◌, ◌⊎◌, inl, inr, true, List, [], ◌∷◌, Option, none, some, arith, Any,
  Option-cases, if◌then◌else◌, is_empty, subst,
}
use gateway_auth.Text.{Bytes, codes, same, same_iff}
use gateway_auth.Identity
use gateway_auth.Identity.{Claims, items, has_role}
use gateway_auth.Identity.Roles.{has_role_iff}
use gateway_auth.Claims.{
  Token, ClaimsMapper, default_to, with_defaults, collect, claims_map, claim_values, identity,
  strings_from,
}
use gateway_auth.Claims.Shapes.{Grants, strings_from_iff}

abbrev pub IsNamed : ClaimsMapper → Type 0
IsNamed m = (m.name_claim ≢ []) × (m.email_claim ≢ []) × (m.roles_claim ≢ [])

default_to-ne-nil : (d s : Bytes) → d ≢ [] → default_to d s ≢ []
default_to-ne-nil d [] h = h
default_to-ne-nil d (c ∷ s) h = λ e. cc

default_to_of-ne-nil : (d s : Bytes) → s ≢ [] → default_to d s ≡ s
default_to_of-ne-nil d [] h = absurd (h refl)
default_to_of-ne-nil d (c ∷ s) h = refl

-- With the defaults every claim has a name, and exactly the mappers that name all three are left as
-- they are.
pub with_defaults-IsNamed :
    (m : ClaimsMapper) → IsNamed (with_defaults m) × ((with_defaults m ≡ m) ↔ IsNamed m)
unfolding with_defaults
with_defaults-IsNamed m = (named, (λ e. subst IsNamed e named, kept))
  where
    named : IsNamed (with_defaults m)
    named =
        unfold with_defaults in
        (
          default_to-ne-nil _ m.name_claim (λ e. cc),
          default_to-ne-nil _ m.email_claim (λ e. cc),
          default_to-ne-nil _ m.roles_claim (λ e. cc),
        )

    kept : IsNamed m → with_defaults m ≡ m
    kept (n, e, r) =
        unfold with_defaults in
        (λ i. record {
          name_claim = default_to_of-ne-nil (codes "name") m.name_claim n i;
          email_claim = default_to_of-ne-nil (codes "email") m.email_claim e i;
          roles_claim = default_to_of-ne-nil (codes "groups") m.roles_claim r i;
        })

-- The token has the claim, and it grants the role.
abbrev pub GrantsIn : Bytes → Option Identity.Any → Type 0
GrantsIn role none = ⊥
GrantsIn role (some raw) = Grants role raw

claim_values_iff :
    (t : Token) (name role : Bytes)
    → Any (λ s. s ≡ role) (items (claim_values t name)) ↔ GrantsIn role (t.field name)
unfolding claim_values
claim_values_iff t name role =
    elim (t.field name)
      as (λ o.
        Any (λ s. s ≡ role) (items (elim o [ none ↦ none | some raw ↦ strings_from raw ]))
        ↔ GrantsIn role o) [ none ↦ ((λ h. h), (λ h. h)) | some raw ↦ strings_from_iff role raw ]

-- A caller holds a role exactly when the roles claim that the mapper names grants it.
pub has_role-identity :
    (m : ClaimsMapper) (t : Token) (raw role : Bytes)
    → (has_role (identity m t raw) role ≡ true)
      ↔ GrantsIn role (t.field (with_defaults m).roles_claim)
has_role-identity m t raw role =
    let (to, from) = has_role_iff (identity m t raw) role in
    let (there, back) = claim_values_iff t (with_defaults m).roles_claim role in
    ((λ h. there (unfold identity in to h)), (λ h. from (unfold identity in back h)))

-- `claims[key]`.
abbrev pub entry : List (Bytes × Identity.Any) → Bytes → Option Identity.Any
entry [] key = none
entry ((k, v) ∷ kvs) key = if same k key then some v else entry kvs key

abbrev pub claim : Claims → Bytes → Option Identity.Any
claim none key = none
claim (some kvs) key = entry kvs key

-- jwx's `Keys` names every claim that `Field` finds.
abbrev pub ListsKeys : Token → Type 0
ListsKeys t = (key : Bytes) → (t.field key ≡ none) ⊎ Any (λ k. k ≡ key) t.keys

module _ (t : Token) (key : Bytes) where
  collect-some :
      (k : Bytes) (ks : List Bytes) (v : Identity.Any)
      → t.field k ≡ some v
      → collect t (k ∷ ks) ≡ (k, v) ∷ collect t ks
  unfolding collect
  collect-some k ks v e = rw (e, collect) refl

  collect-none :
      (k : Bytes) (ks : List Bytes) → t.field k ≡ none → collect t (k ∷ ks) ≡ collect t ks
  unfolding collect
  collect-none k ks e = rw (e, collect) refl

  entry-collect-none : (ks : List Bytes) → t.field key ≡ none → entry (collect t ks) key ≡ none
  entry-collect-none [] h = unfold collect in refl
  entry-collect-none (k ∷ ks) h = elim (Option-cases (t.field k)) [
    | inl e ↦ rw (collect-none k ks e) (entry-collect-none ks h)
    | inr (v, e) ↦
        rw (collect-some k ks v e) (ground (arith, same_iff k key, entry-collect-none ks h))
  ]

  entry-collect : (ks : List Bytes) → Any (λ k. k ≡ key) ks → entry (collect t ks) key ≡ t.field key
  entry-collect [] h = absurd h
  entry-collect (k ∷ ks) h = elim (Option-cases (t.field k)) [
    | inl e ↦ rw (collect-none k ks e) (elim h [
      | inl same_key ↦
          let missing : t.field key ≡ none = ground arith in
          entry-collect-none ks missing ∙ sym missing
      | inr later ↦ entry-collect ks later
    ])
    | inr (v, e) ↦ rw (collect-some k ks v e) (ground (arith, same_iff k key, entry-collect ks))
  ]

  -- `claimsMap` over a list of keys in place of the token's own.
  claim_listed :
      (ks : List Bytes)
      → (t.field key ≡ none) ⊎ Any (λ k. k ≡ key) ks
      → claim (if is_empty ks then none else some (collect t ks)) key ≡ t.field key
  claim_listed [] (inl missing) = sym missing
  claim_listed [] (inr h) = absurd h
  claim_listed (k ∷ ks) (inl missing) = entry-collect-none (k ∷ ks) missing ∙ sym missing
  claim_listed (k ∷ ks) (inr h) = entry-collect (k ∷ ks) h

-- For a token whose keys are those of its claims, the claims of an identity are the token's, every one
-- of them and no other.
pub claim-identity :
    (m : ClaimsMapper) (t : Token) (raw key : Bytes)
    → ListsKeys t
    → claim (identity m t raw).claims key ≡ t.field key
unfolding identity claims_map
claim-identity m t raw key lists = claim_listed t key t.keys (lists key)
