-- ===== src/Ts/SignOut.antt =====
-- ts/src/signout.ts: the sign-out URL.
pub mod Conforms
use gateway_auth.Prelude.{
  ℕ, ◌/◌, ◌%◌, ◌++◌, Bool, true, false, ◌||◌, not, List, [], ◌∷◌, Option, none, some, if◌then◌else◌,
  ◌==◌, is_empty,
}
use gateway_auth.Text.{codes}
use gateway_auth.Text.Split.{has_prefix, trim_right_byte}
use gateway_auth.SignOut.{is_unreserved, hex_digit}
use gateway_auth.Ts.Strings.{Units, or_blank, all_ascii}

-- The units that `encodeURIComponent` leaves as they are: those of `url.QueryEscape`, and these.
abbrev pub is_kept : ℕ → Bool
is_kept c = is_unreserved c || (c == b'!') || (c == b'*') || (c == 39) || (c == b'(') || (c == b')')

-- What one ASCII unit becomes.
unfoldable pub escape_unit : ℕ → Units
escape_unit c = if is_kept c then c ∷ [] else b'%' ∷ hex_digit (c / 16) ∷ hex_digit (c % 16) ∷ []

unfoldable pub escape_units : Units → Units
unfolding escape_unit
escape_units [] = []
escape_units (c ∷ s) = escape_unit c ++ escape_units s

-- `encodeURIComponent(s)`: by the UTF-8 form, `other`, unless all units are ASCII.
unfoldable pub encode_uri_component : (Units → Units) → Units → Units
unfolding escape_units
encode_uri_component other s = if all_ascii s then escape_units s else other s

-- The parameter's default.
abbrev pub prefix_or_default : Option Units → Units
prefix_or_default none = codes "/oauth2"
prefix_or_default (some prefix) = prefix

-- `base`; `replace(/\/+$/, "")` takes the slashes off the end.
unfoldable pub sign_out_base : Option Units → Units
sign_out_base proxy_prefix =
    let p = prefix_or_default proxy_prefix in
    let prefix = if has_prefix p (codes "/") then p else b'/' ∷ p in
    trim_right_byte prefix b'/' ++ codes "/sign_out"

-- `signOutUrl(proxyPrefix, redirectTo)`; an argument that is left out is `none`.
unfoldable pub sign_out_url : (Units → Units) → Option Units → Option Units → Units
unfolding sign_out_base encode_uri_component
sign_out_url encode_other proxy_prefix redirect_to =
    if is_empty (or_blank redirect_to)
    then sign_out_base proxy_prefix
    else sign_out_base proxy_prefix
      ++ codes "?rd="
      ++ encode_uri_component encode_other (or_blank redirect_to)
