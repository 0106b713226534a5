-- ===== src/SignOut/Shape.antt =====
-- The sign-out URL: its path, and its parameter.
use gateway_auth.Prelude.{
  ℕ, ◌≡◌, ◌≢◌, refl, ap, false, [], ◌∷◌, ◌++◌, if◌then◌else◌, ◌==◌, is_empty, arith, All,
  Bool-cases, inl, inr, ◌⊎◌,
}
use gateway_auth.Text.{Bytes, codes}
use gateway_auth.Text.Split.{has_prefix, trim_right_byte}
use gateway_auth.SignOut.{rooted, sign_out_base, sign_out_url, query_escape}
use gateway_auth.SignOut.Escape.{
  unescape, AreBytes, IsSafe, unescape-query_escape, query_escape-IsSafe,
}

trim_right_byte-append : (s : Bytes) (b : ℕ) → trim_right_byte (s ++ b ∷ []) b ≡ trim_right_byte s b
unfolding trim_right_byte
trim_right_byte-append [] b = ground arith
trim_right_byte-append (c ∷ s) b = rw (trim_right_byte-append s b) refl

-- The path begins with a slash.
abbrev pub IsRooted : Bytes → Type 0
IsRooted s = (rest : Bytes) × (s ≡ b'/' ∷ rest)

trimmed-IsRooted : (s suffix : Bytes) → IsRooted (trim_right_byte (b'/' ∷ s) b'/' ++ b'/' ∷ suffix)
unfolding trim_right_byte
trimmed-IsRooted s suffix = elim (Bool-cases (is_empty (trim_right_byte s b'/'))) [
  | inl e ↦ rw e (suffix, refl)
  | inr e ↦ rw e (_, refl)
]

rooted-IsRooted : (p : Bytes) → IsRooted (rooted p)
unfolding has_prefix
rooted-IsRooted [] = (codes "oauth2", refl)
rooted-IsRooted (c ∷ p) = elim (Bool-cases (c == b'/')) [
  | inl e ↦ rw e (p, ground arith)
  | inr e ↦ rw e (c ∷ p, refl)
]

abbrev finish : Bytes → Bytes → Bytes
finish r base = if is_empty r then base else base ++ codes "?rd=" ++ query_escape r

-- Whatever the prefix, the sign-out path begins with a slash.
pub sign_out_base-IsRooted : (p : Bytes) → IsRooted (sign_out_base p)
unfolding sign_out_base
sign_out_base-IsRooted p =
    let (rest, e) = rooted-IsRooted p in rw e (trimmed-IsRooted rest (codes "sign_out"))

rooted_slashes :
    (p : Bytes)
    → p ≢ []
    → has_prefix p (codes "/") ≡ false
    → (rooted (b'/' ∷ p) ≡ b'/' ∷ p)
      × (rooted p ≡ b'/' ∷ p)
      × (rooted (p ++ b'/' ∷ []) ≡ (b'/' ∷ p) ++ b'/' ∷ [])
unfolding has_prefix
rooted_slashes [] ne h = absurd (ne refl)
rooted_slashes (c ∷ p) ne h = (refl, rw h refl, rw h refl)

base_slashes :
    (p : Bytes)
    → p ≢ []
    → has_prefix p (codes "/") ≡ false
    → (sign_out_base (b'/' ∷ p) ≡ sign_out_base p)
      × (sign_out_base (p ++ b'/' ∷ []) ≡ sign_out_base p)
unfolding sign_out_base
base_slashes p ne h =
    let (before, plain, behind) = rooted_slashes p ne h in
    (
      rw (before, plain) refl,
      rw (behind, plain)
          (ap (λ b. b ++ codes "/sign_out") (trim_right_byte-append (b'/' ∷ p) b'/')),
    )

-- A prefix that is not empty and begins with no slash gives the same URL with a slash put before it,
-- and with one put behind it.
pub sign_out_url_slashes :
    (p redirect_to : Bytes)
    → p ≢ []
    → has_prefix p (codes "/") ≡ false
    → (sign_out_url (b'/' ∷ p) redirect_to ≡ sign_out_url p redirect_to)
      × (sign_out_url (p ++ b'/' ∷ []) redirect_to ≡ sign_out_url p redirect_to)
unfolding sign_out_url
sign_out_url_slashes p r ne h =
    let (before, behind) = base_slashes p ne h in (ap (finish r) before, ap (finish r) behind)

-- A redirect, of bytes, is the URL's one parameter: it stands behind "?rd=", escaped so that nothing in it ends the
-- parameter, and the proxy reads it back to the byte. Without one the URL is the path alone.
pub sign_out_url_redirect :
    (p redirect_to : Bytes)
    → AreBytes redirect_to
    → ((redirect_to ≡ []) × (sign_out_url p redirect_to ≡ sign_out_base p))
      ⊎ ((redirect_to ≢ [])
          × (value : Bytes) × (sign_out_url p redirect_to
              ≡ sign_out_base p ++ codes "?rd=" ++ value)
          × All IsSafe value
          × (unescape value ≡ redirect_to))
unfolding sign_out_url
sign_out_url_redirect p [] b = inl (refl, refl)
sign_out_url_redirect p (c ∷ r) b = inr (
  (λ e. cc),
  query_escape (c ∷ r),
  refl,
  query_escape-IsSafe (c ∷ r) b,
  unescape-query_escape (c ∷ r) b,
)
