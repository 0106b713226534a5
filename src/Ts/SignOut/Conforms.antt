-- ===== src/Ts/SignOut/Conforms.antt =====
-- The sign-out URLs of the two ports.
use gateway_auth.Prelude.{
  ℕ, ◌<◌, ◌≡◌, ◌≢◌, refl, ap, ◌∙◌, [], ◌∷◌, ◌++◌, Option, none, some, ◌⊎◌, Bool-cases, inl, inr,
  arith, All, All-append, ◌/◌, ◌%◌,
}
use gateway_auth.Text.{Bytes, codes}
use gateway_auth.Text.Split.{has_prefix}
use gateway_auth.Text.Ascii.{IsAscii}
use gateway_auth.SignOut as Go
use gateway_auth.SignOut.{hex_digit}
use gateway_auth.SignOut.Escape.{
  AreBytes, unescape, unescape_plain, unescape_hex, hex_pair, unescape-query_escape, IsInside,
  IsSafe-IsInside, query_escape-IsSafe,
}
use gateway_auth.Ts.Strings.{Units, or_blank, all_ascii-true}
use gateway_auth.Ts.SignOut.{
  is_kept, escape_unit, escape_units, encode_uri_component, sign_out_base, sign_out_url,
}

unescape-escape_unit :
    (c : ℕ) (s : Units) → c < 128 → unescape (escape_unit c ++ s) ≡ c ∷ unescape s
unfolding escape_unit
unescape-escape_unit c s h = elim (Bool-cases (is_kept c)) [
  | inl u ↦ rw u (unescape_plain c s (ground arith) ∙ ground arith)
  | inr r ↦ rw r (unescape_hex _ _ s ∙ ap (λ b. b ∷ unescape s) (hex_pair c (omega arith)))
]

unescape-escape_units : (s : Units) → IsAscii s → unescape (escape_units s) ≡ s
unfolding escape_units
unescape-escape_units [] h = unfold Go.query_escape in unescape-query_escape [] tt
unescape-escape_units (c ∷ s) (a, h) =
    unescape-escape_unit c (escape_units s) a ∙ ap (◌∷◌ c) (unescape-escape_units s h)

digit-IsInside : (d : ℕ) → d < 16 → IsInside (hex_digit d)
digit-IsInside d h =
    ((λ e. ground arith), (λ e. ground arith), (λ e. ground arith), (λ e. ground arith))

escape_unit-IsInside : (c : ℕ) → c < 128 → All IsInside (escape_unit c)
unfolding escape_unit
escape_unit-IsInside c h = elim (Bool-cases (is_kept c)) [
  | inl u ↦
      rw u
        (((λ e. ground arith), (λ e. ground arith), (λ e. ground arith), (λ e. ground arith)), tt)
  | inr r ↦ rw r (
    ((λ e. omega arith), (λ e. omega arith), (λ e. omega arith), (λ e. omega arith)),
    (digit-IsInside (c / 16) (omega arith), (digit-IsInside (c % 16) (omega arith), tt)),
  )
]

escape_units-IsInside : (s : Units) → IsAscii s → All IsInside (escape_units s)
unfolding escape_units
escape_units-IsInside [] h = tt
escape_units-IsInside (c ∷ s) (a, h) =
    All-append IsInside (escape_unit c) (escape_units s) (escape_unit-IsInside c a)
      (escape_units-IsInside s h)

-- For a prefix that is not empty, or is left out, the two ports send the caller to the same path.
sign_out_base-conforms :
    (p : Option Units) → p ≢ some [] → sign_out_base p ≡ Go.sign_out_base (or_blank p)
unfolding sign_out_base Go.sign_out_base
sign_out_base-conforms none h = unfold has_prefix in refl
sign_out_base-conforms (some []) h = absurd (h refl)
sign_out_base-conforms (some (c ∷ p)) h = elim (Bool-cases (has_prefix (c ∷ p) (codes "/"))) [
  | inl e ↦ rw e refl
  | inr e ↦ rw e refl
]

IsAscii-AreBytes : (s : Bytes) → IsAscii s → AreBytes s
IsAscii-AreBytes [] h = tt
IsAscii-AreBytes (c ∷ s) (a, h) = (omega arith, IsAscii-AreBytes s h)

-- For a prefix that is not empty, or is left out, and an ASCII redirect, the two ports send the caller
-- to the same path. With no redirect the URLs are equal; with one, each has one parameter behind the
-- path, in which no unit ends the parameter or starts another or a fragment, and which a server reads
-- back to the redirect.
pub sign_out_url-conforms :
    (encode_other : Units → Units) (p redirect_to : Option Units)
    → p ≢ some []
    → IsAscii (or_blank redirect_to)
    → ((or_blank redirect_to ≡ [])
        × (sign_out_url encode_other p redirect_to
            ≡ Go.sign_out_url (or_blank p) (or_blank redirect_to)))
      ⊎ ((path value go_value : Units) × (sign_out_url encode_other p redirect_to
            ≡ path ++ codes "?rd=" ++ value)
          × (Go.sign_out_url (or_blank p) (or_blank redirect_to) ≡ path ++ codes "?rd=" ++ go_value)
          × All IsInside value
          × All IsInside go_value
          × (unescape value ≡ or_blank redirect_to)
          × (unescape go_value ≡ or_blank redirect_to))
unfolding sign_out_url Go.sign_out_url encode_uri_component
sign_out_url-conforms encode_other p none n a = inl (refl, sign_out_base-conforms p n)
sign_out_url-conforms encode_other p (some []) n a = inl (refl, sign_out_base-conforms p n)
sign_out_url-conforms encode_other p (some (c ∷ r)) n a = inr (
  sign_out_base p,
  escape_units (c ∷ r),
  Go.query_escape (c ∷ r),
  rw (all_ascii-true (c ∷ r) a) refl,
  rw (sign_out_base-conforms p n) refl,
  escape_units-IsInside (c ∷ r) a,
  IsSafe-IsInside (Go.query_escape (c ∷ r))
      (query_escape-IsSafe (c ∷ r) (IsAscii-AreBytes (c ∷ r) a)),
  unescape-escape_units (c ∷ r) a,
  unescape-query_escape (c ∷ r) (IsAscii-AreBytes (c ∷ r) a),
)
