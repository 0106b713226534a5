-- ===== src/Verifier/Tests.antt =====
-- Runs and instances of the verifier.
use gateway_auth.Prelude.{
  ◌≡◌, refl, sym, Bool, true, false, ◌&&◌, inl, List, [], ◌∷◌, Option, none, some, ok, err, Any,
  if◌then◌else◌, arith, ◌⊎◌,
}
use gateway_auth.Text.{Bytes, codes, same, same_iff}
use gateway_auth.Text.Space.{trim_space, has_space_front, has_space_back}
use gateway_auth.Text.Split.{split, cut, equal_fold}
use gateway_auth.Identity.{Headers, no_credential, invalid_token}
use gateway_auth.Source.{token, default_source, header_token, header_access_token}
use gateway_auth.Claims.{Token, or_empty, identity}
use gateway_auth.Userinfo.{fill, cached_answer, ask}
use gateway_auth.Verifier.{cookie_value, parse, display, authenticate, is_nameless}
use gateway_auth.Verifier.Cookie.{cookie_header, first_value, cookie_value-cookie_header}
use gateway_auth.Verifier.Display.{Origin, Extends, display-Origin}
use gateway_auth.Verifier.Outcome.{Verdict, RestsOn, authenticate-Verdict}
use gateway_auth.Verifier.Contract.{Contract, authenticate_verified}
use gateway_auth.Fixture.{
  issuer, env, world, verifier, good, nameless_ada, ada, bare_token, checked, audience_fits,
}

-- The token has no name, and there is no cookie: the endpoint gives the name, and it is cached.
good_run : (authenticate env verifier good world).0 ≡ ok ada
unfolding authenticate token default_source header_token trim_space same parse display cookie_value
    split cut identity fill cached_answer ask
good_run = refl

abbrev bad : Headers
bad name = if same name header_access_token then codes "forged" else []

bad_runs :
    ((authenticate env verifier bad world).0 ≡ err invalid_token)
    × ((authenticate env verifier (λ n. []) world) ≡ (err no_credential, world))
unfolding authenticate token default_source header_token trim_space same parse equal_fold
bad_runs = (refl, refl)

abbrev cookies : List (Bytes × Bytes)
cookies = (codes "a", codes "1") ∷ (codes "IdToken", codes "x=y") ∷ []

cookie_value-cookie_header_example :
    cookie_value (cookie_header cookies) (codes "IdToken")
    ≡ or_empty (first_value (codes "IdToken") cookies)
unfolding has_space_front has_space_back
cookie_value-cookie_header_example =
    cookie_value-cookie_header cookies (codes "IdToken")
      ((omega arith, omega arith, (refl, refl)), ((omega arith, omega arith, (refl, refl)), tt))

display-Origin_example :
    ((is_nameless nameless_ada ≡ true)
      ⊎ (display env verifier good (codes "tok") nameless_ada world ≡ (nameless_ada, world)))
    × Origin env verifier good
        (codes "tok")
        world
        nameless_ada
        (display env verifier good (codes "tok") nameless_ada world).0
    × Extends world (display env verifier good (codes "tok") nameless_ada world).1
display-Origin_example = display-Origin env verifier good (codes "tok") world nameless_ada

authenticate-Verdict_example :
    Verdict env verifier good world (authenticate env verifier good world)
authenticate-Verdict_example = authenticate-Verdict env verifier good world

abbrev IsTok : Bytes → Bytes → Type 0
IsTok set raw = raw ≡ codes "tok"

abbrev issuer_of : Token → Bytes
issuer_of t = issuer

abbrev audiences : Token → List Bytes
audiences t = codes "web" ∷ []

abbrev IsCurrent : Token → Type 0
IsCurrent t = t ≡ bare_token

-- What a token that `parse_tok` returns shows of the call.
parse_tok_inversion :
    (keys : Option Bytes) (b : Bool) (t : Token)
    → checked keys b ≡ ok t
    → ((set : Bytes) × (keys ≡ some set)) × (b ≡ true) × (t ≡ bare_token)
parse_tok_inversion none b t e = cc
parse_tok_inversion (some set) true t e = ((set, refl), refl, ground arith)
parse_tok_inversion (some set) false t e = cc

and_parts : (a b c : Bool) → (a && b && c) ≡ true → (a ≡ true) × (b ≡ true) × (c ≡ true)
and_parts a b c e = ground arith

audience_inversion :
    (o : Option Bytes) (a : Bytes) → audience_fits o ≡ true → o ≡ some a → codes "web" ≡ a
audience_inversion none a e q = cc
audience_inversion (some b) a e q =
    let same_audience : b ≡ a = ground arith in
    rw (← same_audience) (sym ((same_iff b (codes "web")).0 e))

test_env-Contract : Contract env IsTok issuer_of audiences IsCurrent
test_env-Contract = record {
  signature = λ raw o t e.
      let (k, b, _) = parse_tok_inversion o.keys _ t e in
      (k.0, k.1, (same_iff raw (codes "tok")).0 (and_parts _ _ _ b).0);
  issuer = λ raw o t e validates.
      let (_, b, _) = parse_tok_inversion o.keys _ t e in
      sym ((same_iff o.issuer issuer).0 (and_parts _ _ _ b).1);
  audience = λ raw o t a e validates q.
      let (_, b, _) = parse_tok_inversion o.keys _ t e in
      inl (
        audience_inversion o.audience a
          (and_parts (same raw (codes "tok")) (same o.issuer issuer) (audience_fits o.audience) b).2
          q);
  validity = λ raw o t e q. (parse_tok_inversion o.keys _ t e).2;
}

authenticate_verified_example :
    (set : Bytes) × (t : Token) × (world.key_set.keys ≡ some set)
    × IsTok set ada.token
    × RestsOn env verifier good world ada ada.token t
    × (issuer_of t ≡ verifier.issuer)
    × ((verifier.audience ≡ []) ⊎ Any (λ b. b ≡ verifier.audience) (audiences t))
    × IsCurrent t
authenticate_verified_example =
    authenticate_verified env IsTok issuer_of audiences IsCurrent test_env-Contract verifier good
      world ada good_run
