-- ===== src/Trust.antt =====
-- The header-trust authenticator of verify.go and profile.go: no token is verified.
pub mod Laws
pub mod Tests
use gateway_auth.Prelude.{
  Bool, true, false, ◌&&◌, List, [], ◌∷◌, Option, none, some, Result, ok, err, if◌then◌else◌,
  is_empty,
}
use gateway_auth.Text.{Bytes, codes}
use gateway_auth.Identity.{Identity, Headers, AuthError, no_credential, AuthResult, Authenticator}
use gateway_auth.Source.{
  header_user, header_email, header_groups, header_access_token, split_and_trim,
}

unfoldable pub trust_headers : Headers → AuthResult
trust_headers h =
    let subject = h header_user in
    let email = h header_email in
    if is_empty subject && is_empty email
    then err no_credential
    else ok (record {
      subject = subject;
      name = if is_empty subject then email else subject;
      email = email;
      roles = split_and_trim (h header_groups) b',';
      token = h header_access_token;
      claims = none;
    })

-- `NewHeaderTrust()`.
unfoldable pub new_header_trust : {S : Type 0} → Authenticator S
unfolding trust_headers
new_header_trust = record { authenticate = λ h s. (trust_headers h, s); enabled = true }
