-- ===== src/SignOut/Bounds.antt =====
-- The length of the sign-out URL.
use gateway_auth.Prelude.{
  ℕ, ◌+◌, ◌*◌, ◌≤◌, ◌≡◌, refl, [], ◌∷◌, ◌++◌, length, length-append, Bool-cases, inl, inr, is_empty,
  ◌==◌, ◌&&◌, arith,
}
use gateway_auth.Text.{Bytes, codes}
use gateway_auth.Text.Split.{has_prefix, trim_right_byte}
use gateway_auth.SignOut.{
  is_unreserved, escape_byte, query_escape, rooted, sign_out_base, sign_out_url,
}

length-escape_byte : (c : ℕ) → length (escape_byte c) ≤ 3
unfolding escape_byte
length-escape_byte c = elim (Bool-cases (is_unreserved c)) [
  | inl u ↦ rw u (omega arith)
  | inr r ↦ elim (Bool-cases (c == 32)) [
    | inl s ↦ rw (r, s) (omega arith)
    | inr o ↦ rw (r, o) (omega arith)
  ]
]

length-query_escape : (s : Bytes) → length (query_escape s) ≤ 3 * length s
unfolding query_escape
length-query_escape [] = omega arith
length-query_escape (c ∷ s) = omega (
  arith,
  length-append (escape_byte c) (query_escape s),
  length-escape_byte c,
  length-query_escape s,
)

length-trim_right_byte : (s : Bytes) (b : ℕ) → length (trim_right_byte s b) ≤ length s
unfolding trim_right_byte
length-trim_right_byte [] b = omega arith
length-trim_right_byte (c ∷ s) b = elim (Bool-cases (is_empty (trim_right_byte s b) && (c == b))) [
  | inl e ↦ rw e (omega arith)
  | inr e ↦ rw e (omega (arith, length-trim_right_byte s b))
]

length-rooted : (p : Bytes) → length (rooted p) ≤ length p + 7
length-rooted [] = unfold has_prefix in omega arith
length-rooted (c ∷ p) = elim (Bool-cases (has_prefix (c ∷ p) (codes "/"))) [
  | inl e ↦ rw e (omega arith)
  | inr e ↦ rw e (omega arith)
]

length-sign_out_base : (p : Bytes) → length (sign_out_base p) ≤ length p + 16
unfolding sign_out_base
length-sign_out_base p = omega (
  arith,
  length-append (trim_right_byte (rooted p) b'/') (codes "/sign_out"),
  length-trim_right_byte (rooted p) b'/',
  length-rooted p,
)

length-joined :
    (p r u : Bytes)
    → u ≡ sign_out_base p ++ codes "?rd=" ++ query_escape r
    → length u ≤ length p + 3 * length r + 20
length-joined p r u e = rw e (
    omega (
      arith,
      length-append (sign_out_base p ++ codes "?rd=") (query_escape r),
      length-append (sign_out_base p) (codes "?rd="),
      length-append (sign_out_base p) (codes "?rd=" ++ query_escape r),
      length-sign_out_base p,
      length-query_escape r,
    ))

-- The URL is at most 20 bytes longer than the prefix and three times the redirect.
pub sign_out_url_bounded :
    (p redirect_to : Bytes)
    → length (sign_out_url p redirect_to) ≤ length p + 3 * length redirect_to + 20
unfolding sign_out_url
sign_out_url_bounded p [] = omega (arith, length-sign_out_base p)
sign_out_url_bounded p (c ∷ r) = length-joined p (c ∷ r) _ refl
