-- ===== src/Ts/Verifier/Trust.antt =====
-- Header trust of the two ports.
use gateway_auth.Prelude.{
  refl, subst, sym, ◌&&◌, not, [], ◌∷◌, none, ok, err, if◌then◌else◌, is_empty,
}
use gateway_auth.Text.{Bytes}
use gateway_auth.Text.Ascii.{IsAscii}
use gateway_auth.Identity as GoIdentity
use gateway_auth.Identity.{is_no_credential}
use gateway_auth.Source as GoSource
use gateway_auth.Trust as Go
use gateway_auth.Ts.Source.{Headers, split_and_trim}
use gateway_auth.Ts.Source.Conforms.{SameRequest, split_and_trim-conforms}
use gateway_auth.Ts.Identity.{Identity, no_credential}
use gateway_auth.Ts.Claims.Conforms.{SameIdentity}
use gateway_auth.Ts.Adapters.Conforms.{SameResult}
use gateway_auth.Ts.Verifier.{trust_headers}

-- Four texts that the two ports build an identity from.
abbrev go_identity : Bytes → Bytes → Bytes → Bytes → Bytes → GoIdentity.Identity
go_identity u n m g t = record {
  subject = u;
  name = n;
  email = m;
  roles = GoSource.split_and_trim g b',';
  token = t;
  claims = none;
}

abbrev port_identity : Bytes → Bytes → Bytes → Bytes → Bytes → Identity
port_identity u n m g t = record {
  subject = u;
  name = n;
  email = m;
  roles = split_and_trim g b',';
  token = t;
  claims = [];
}

identity-SameIdentity :
    (u n m g t : Bytes) → IsAscii g → SameIdentity (go_identity u n m g t) (port_identity u n m g t)
identity-SameIdentity u n m g t a = record {
  subject = refl;
  name = refl;
  email = refl;
  roles = sym (split_and_trim-conforms g b',' a);
  token = refl;
}

resolved :
    (u m g t : Bytes)
    → IsAscii g
    → SameResult
        (if is_empty u && is_empty m
          then err GoIdentity.no_credential
          else ok (go_identity u (if is_empty u then m else u) m g t))
        (if is_empty u && is_empty m
          then err no_credential
          else ok (port_identity u (if not (is_empty u) then u else m) m g t))
unfolding SameResult is_no_credential
resolved [] [] g t a = refl
resolved [] (c ∷ m) g t a = identity-SameIdentity [] (c ∷ m) (c ∷ m) g t a
resolved (c ∷ u) m g t a = identity-SameIdentity (c ∷ u) (c ∷ u) m g t a

-- On one request, with an ASCII groups header, the header trust of the two ports gives the same
-- subject, name, email, token and roles, or fails as a missing credential in both.
pub trust_headers-SameResult :
    (h : GoIdentity.Headers) (hs : Headers)
    → SameRequest h hs
    → IsAscii (h GoSource.header_groups)
    → SameResult (Go.trust_headers h) (trust_headers hs)
unfolding trust_headers Go.trust_headers
trust_headers-SameResult h hs r a =
    rw
      (
        r GoSource.header_user,
        r GoSource.header_email,
        r GoSource.header_groups,
        r GoSource.header_access_token,
      )
      (resolved _ _ _ _ (subst IsAscii (r GoSource.header_groups) a))
