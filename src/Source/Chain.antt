-- ===== src/Source/Chain.antt =====
-- `ChainSource` as a search through a list.
use gateway_auth.Prelude.{
  ◌≡◌, refl, ◌↔◌, inl, inr, List, [], ◌∷◌, ◌++◌, none, some, arith, ◌∙◌, ap, All, Option-cases,
}
use gateway_auth.Text.{Bytes}
use gateway_auth.Identity.{Headers}
use gateway_auth.Source.{TokenSource, chain_source, Sources, nil, cons, token, first_token, or_else}

abbrev pub to_list : Sources → List TokenSource
to_list nil = []
to_list (cons s c) = s ∷ to_list c

-- The source found, those tried before it, and those that are left.
pub record Found (c : Sources) (h : Headers) (raw : Bytes) : Type 0 where
  pub before : List TokenSource
  pub source : TokenSource
  pub after : List TokenSource
  pub whole : to_list c ≡ before ++ source ∷ after
  pub silent : All (λ s. token s h ≡ none) before
  pub speaks : token source h ≡ some raw

Found-cons :
    {s : TokenSource} {c : Sources} {h : Headers} {raw : Bytes}
    → token s h ≡ none
    → Found c h raw
    → Found (cons s c) h raw
Found-cons {s} e f = record {
  before = s ∷ f.before;
  source = f.source;
  after = f.after;
  whole = ap (◌∷◌ s) f.whole;
  silent = (e, f.silent);
  speaks = f.speaks;
}

first_token-cons :
    (s : TokenSource) (c : Sources) (h : Headers)
    → first_token (cons s c) h ≡ or_else (token s h) (first_token c h)
unfolding token
first_token-cons s c h = refl

first_token-nil : (h : Headers) → first_token nil h ≡ none
unfolding token
first_token-nil h = refl

first_token-Found :
    (c : Sources) (h : Headers) (raw : Bytes) → first_token c h ≡ some raw → Found c h raw
first_token-Found nil h raw e = cc (first_token-nil h)
first_token-Found (cons s c) h raw e = elim (Option-cases (token s h)) [
  | inl silent ↦
      Found-cons silent (first_token-Found c h raw (ground (arith, first_token-cons s c h)))
  | inr (r, here) ↦ record {
    before = [];
    source = s;
    after = to_list c;
    whole = refl;
    silent = tt;
    speaks = ground (arith, first_token-cons s c h);
  }
]

Found-first_token :
    (before after : List TokenSource) (c : Sources) (source : TokenSource) (h : Headers)
    (raw : Bytes)
    → to_list c ≡ before ++ source ∷ after
    → All (λ s. token s h ≡ none) before
    → token source h ≡ some raw
    → first_token c h ≡ some raw
Found-first_token [] after nil source h raw w q e = cc
Found-first_token (b ∷ before) after nil source h raw w q e = cc
Found-first_token [] after (cons s c) source h raw w q e =
    let same_source : s ≡ source = cc in first_token-cons s c h ∙ rw (same_source, e) refl
Found-first_token (b ∷ before) after (cons s c) source h raw w (q, qs) e =
    let same_source : s ≡ b = cc in
    let rest : to_list c ≡ before ++ source ∷ after = cc in
    first_token-cons s c h
    ∙ rw (same_source, q) (Found-first_token before after c source h raw rest qs e)

first_token-none_iff :
    (c : Sources) (h : Headers) → (first_token c h ≡ none) ↔ All (λ s. token s h ≡ none) (to_list c)
first_token-none_iff nil h = ((λ _. tt), (λ _. first_token-nil h))
first_token-none_iff (cons s c) h = ground (arith, first_token-cons s c h, first_token-none_iff c h)

-- A chain finds a token exactly when one of its sources has it and no source before that one has
-- any; it finds none exactly when no source has any.
pub chain_iff :
    (c : Sources) (h : Headers)
    → ((raw : Bytes) → (token (chain_source c) h ≡ some raw) ↔ Found c h raw)
      × ((token (chain_source c) h ≡ none) ↔ All (λ s. token s h ≡ none) (to_list c))
unfolding token
chain_iff c h = (
  (λ raw. (
    first_token-Found c h raw,
    λ f. Found-first_token f.before f.after c f.source h raw f.whole f.silent f.speaks,
  )),
  first_token-none_iff c h,
)
