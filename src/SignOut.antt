-- ===== src/SignOut.antt =====
-- signout.go, with `url.QueryEscape` of net/url.
pub mod Escape
pub mod Shape
pub mod Bounds
pub mod Tests
use gateway_auth.Prelude.{
  ℕ, ◌+◌, ◌/◌, ◌%◌, ◌++◌, Bool, true, false, ◌||◌, not, List, [], ◌∷◌, if◌then◌else◌, ◌==◌, ltb,
  in_range, is_empty,
}
use gateway_auth.Text.{Bytes, codes}
use gateway_auth.Text.Split.{has_prefix, trim_right_byte}

-- The bytes that `url.QueryEscape` leaves as they are.
abbrev pub is_unreserved : ℕ → Bool
is_unreserved c =
    in_range b'a' b'z' c
    || in_range b'A' b'Z' c
    || in_range b'0' b'9' c
    || (c == b'-')
    || (c == b'_')
    || (c == b'.')
    || (c == b'~')

-- "0123456789ABCDEF"[d].
abbrev pub hex_digit : ℕ → ℕ
hex_digit d = if ltb d 10 then b'0' + d else 55 + d

-- What one byte becomes: itself, "+" for a space, or "%" and two hexadecimal digits.
unfoldable pub escape_byte : ℕ → Bytes
escape_byte c =
    if is_unreserved c
    then c ∷ []
    else if c == 32
    then b'+' ∷ []
    else b'%' ∷ hex_digit (c / 16) ∷ hex_digit (c % 16) ∷ []

-- `url.QueryEscape(s)`.
unfoldable pub query_escape : Bytes → Bytes
unfolding escape_byte
query_escape [] = []
query_escape (c ∷ s) = escape_byte c ++ query_escape s

-- The prefix with the default, and with a slash before it.
abbrev pub rooted : Bytes → Bytes
rooted prefix =
    let p = if is_empty prefix then codes "/oauth2" else prefix in
    if not (has_prefix p (codes "/")) then codes "/" ++ p else p

-- `base`.
unfoldable pub sign_out_base : Bytes → Bytes
sign_out_base proxy_prefix = trim_right_byte (rooted proxy_prefix) b'/' ++ codes "/sign_out"

unfoldable pub sign_out_url : Bytes → Bytes → Bytes
unfolding sign_out_base query_escape
sign_out_url proxy_prefix redirect_to =
    if is_empty redirect_to
    then sign_out_base proxy_prefix
    else sign_out_base proxy_prefix ++ codes "?rd=" ++ query_escape redirect_to
