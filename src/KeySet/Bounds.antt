-- ===== src/KeySet/Bounds.antt =====
-- How much of a response the key set is read from.
use gateway_auth.Prelude.{
  ℕ, zero, suc, ◌≤◌, ◌≡◌, refl, ap, List, [], ◌∷◌, none, ok, length, take, ltb, Bool-cases, inl,
  inr, arith, Option-cases, subst, ◌^◌, ◌≢◌,
}
use gateway_auth.Text.{Bytes}
use gateway_auth.Http.{Body, answered, Network, status_ok, read_limited}
use gateway_auth.KeySet.{Jwk, key_set_max_bytes, fetch_set}
use gateway_auth.KeySet.Refresh.{fetch_set_iff}

length-take {ℓ} : {A : Type ℓ} (n : ℕ) (xs : List A) → length (take n xs) ≤ n
length-take zero xs = omega arith
length-take (suc n) [] = omega arith
length-take (suc n) (x ∷ xs) = omega (arith, length-take n xs)

take-all {ℓ} : {A : Type ℓ} (n : ℕ) (xs : List A) → length xs ≤ n → take n xs ≡ xs
take-all zero [] h = refl
take-all zero (x ∷ xs) h = absurd (omega arith)
take-all (suc n) [] h = refl
take-all (suc n) (x ∷ xs) h = ap (◌∷◌ x) (take-all n xs (omega arith))

read_limited-take :
    (n : ℕ) (body : Body) (bytes : Bytes)
    → read_limited n body ≡ ok bytes
    → bytes ≡ take n body.content
unfolding read_limited
read_limited-take n body bytes h = elim (Bool-cases (ltb (length body.content) n)) [
  | inl short ↦ elim (Option-cases body.broken) [
    | inl whole ↦ ground (arith, take-all n body.content)
    | inr (e, broken) ↦ ground arith
  ]
  | inr long ↦ ground arith
]

-- A response of any length costs at most the limit: a set that is fetched was parsed from the first
-- 2 ^ 20 bytes of the body, or from all of it if it is shorter.
pub fetch_set_bounded :
    {K : Type 0} (jwk : Jwk K) (net : Network) (url : Bytes) (set : K)
    → fetch_set jwk net url ≡ ok set
    → (body : Body) × (net (record { url = url; authorization = none }) ≡ answered status_ok body)
      × (jwk.parse (take (2 ^ 20) body.content) ≡ ok set)
      × (length (take (2 ^ 20) body.content) ≤ 2 ^ 20)
      × (jwk.len set ≢ 0)
unfolding key_set_max_bytes
fetch_set_bounded jwk net url set h =
    let (body, e, r) = (fetch_set_iff jwk net url set).0 h in
    (
      body,
      e,
      subst (λ b. jwk.parse b ≡ ok set) (read_limited-take (2 ^ 20) body r.bytes r.whole) r.parsed,
      length-take (2 ^ 20) body.content,
      r.has_keys,
    )
