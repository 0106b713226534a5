-- ===== src/Ts/Userinfo/Tests.antt =====
-- Runs and instances of overlapping calls of the port's `fill`.
use gateway_auth.Prelude.{◌≡◌, refl, [], ◌∷◌, List, none, some, ok, err}
use gateway_auth.Text.{codes, same}
use gateway_auth.Ts.Strings.{Units}
use gateway_auth.Ts.Identity.{Identity}
use gateway_auth.Ts.Userinfo.{answered, null, members, Fetch, use_response, use_body, set}
use gateway_auth.Ts.Userinfo.Overlap.{Turn, comes, lands, settled, run, land, turn, idle}
use gateway_auth.Ts.Userinfo.Overlap.Sharing.{Inv, Said, overlap-Inv}

abbrev uri : Units
uri = codes "https://idp/me"

abbrev caller : Units → Identity
caller subject = record {
  subject = subject;
  name = [];
  email = [];
  roles = [];
  token = codes "tok";
  claims = [];
}

-- The endpoint knows Ada, whatever the token.
abbrev knows_ada : Fetch
knows_ada url auth =
    answered 200
      (ok (members (record { sub = some (codes "u1"); name = some (codes "Ada"); email = none })))

abbrev says_null : Fetch
says_null url auth = answered 200 (ok null)

-- Three calls overlap: Bo's, whom the endpoint does not know, Ada's, and one answered with null; then
-- Ada calls again.
abbrev busy : List Turn
busy =
    comes 1 (codes "tok") (caller (codes "u2"))
    ∷ comes 2 (codes "tok") (caller (codes "u1"))
    ∷ comes 3 (codes "tok") (caller (codes "u3"))
    ∷ lands 1 knows_ada 4
    ∷ lands 2 says_null 5
    ∷ lands 0 knows_ada 6
    ∷ comes 7 (codes "tok") (caller (codes "u1"))
    ∷ []

abbrev ada : Identity
ada = record (caller (codes "u1")) { name = codes "Ada" }

crowd_run :
    (run uri busy idle).calls
    ≡ settled (caller (codes "u2")) (ok (caller (codes "u2")))
      ∷ settled (caller (codes "u1")) (ok ada)
      ∷ settled (caller (codes "u3")) (err (codes "TypeError"))
      ∷ settled (caller (codes "u1")) (ok ada)
      ∷ []
unfolding run turn land use_response use_body set same
crowd_run = refl

overlap-Inv_example : Inv uri (Said uri busy) (run uri busy idle)
overlap-Inv_example = overlap-Inv uri busy
