-- ===== src/Verifier/Overlap/Rests.antt =====
-- What a call rests on in each phase, and what is known of the shared state.
use gateway_auth.Prelude.{◌≡◌, ap, subst, ◌⊎◌, Option, none, some, ok, err}
use gateway_auth.Text.{Bytes, codes}
use gateway_auth.Identity.{Identity, Headers, no_credential, invalid_token}
use gateway_auth.Source.{token}
use gateway_auth.Claims.{Token, or_empty, string_claim, identity}
use gateway_auth.Http.{Network}
use gateway_auth.KeySet.{Jwk}
use gateway_auth.KeySet.Refresh.{Fetches}
use gateway_auth.Userinfo.{Entry, Answer, lookup}
use gateway_auth.Userinfo.Fill.{Answers, shown}
use gateway_auth.Verifier.{Verifier, World, Env, options_for}
use gateway_auth.Verifier.Overlap.{
  Phase, arrived, verifying, accepted, baking, settled, asking, ended, cookie_of,
}

-- What the statements are about: jwx's key sets, the verifier, the URL of its keys, and what holds of
-- the networks that the refreshes of the keys met, and of all that the calls met.
pub record Setting (K : Type 0) : Type 1 where
  pub jwk : Jwk K
  pub verifier : Verifier
  pub url : Bytes
  pub ticked : Network → Type 0
  pub met : Env K → Type 0

module _ {K : Type 0} (st : Setting K) where
  -- The URL delivered the set, which is not empty, at a refresh.
  abbrev pub Genuine : K → Type 0
  Genuine set = (net : Network) × st.ticked net × Fetches st.jwk net st.url set

  abbrev pub Held : Option K → Type 0
  Held keys = (set : K) × (keys ≡ some set) × Genuine set

  -- jwx accepted the text under such a set, for the verifier's issuer and audience.
  abbrev pub Vouched : Bytes → Token → Type 0
  Vouched raw t =
      (e : Env K) × st.met e
      × ((set : K) × Genuine set × (e.parse_string raw (options_for st.verifier (some set)) ≡ ok t))

  -- The endpoint gave the name and the email, about the subject, to an accepted token of the subject.
  abbrev pub GaveOut : Bytes → Bytes → Bytes → Type 0
  GaveOut subject n m =
      (e : Env K) × st.met e
      × ((uri raw : Bytes) × (t : Token) × (a : Answer) × (st.verifier.userinfo ≡ some uri)
          × Vouched raw t
          × (or_empty t.subject ≡ subject)
          × Answers e.decode e.net uri raw subject a
          × (a.name ≡ n)
          × (a.email ≡ m))

  -- Where the name and the email of `j` are from: they are those of `i`, or a cookie's, or the
  -- endpoint's; the rest is `i`.
  pub data Named (h : Headers) (i j : Identity) : Type 0 where
    own : j ≡ i → Named h i j
    cookie :
        (t : Token)
        → Vouched (cookie_of st.verifier h) t
        → or_empty t.subject ≡ i.subject
        → j ≡ shown i (string_claim t (codes "name")) (string_claim t (codes "email"))
        → Named h i j
    endpoint : (n m : Bytes) → GaveOut i.subject n m → j ≡ shown i n m → Named h i j

  -- The source found the token, and jwx accepted it.
  abbrev pub Accepted : Headers → Bytes → Token → Type 0
  Accepted h raw t = (token st.verifier.source h ≡ some raw) × Vouched raw t

  -- What an identity rests on that a call gave.
  abbrev pub Earned : Headers → Bytes → Identity → Type 0
  Earned h raw i = (t : Token) × Accepted h raw t × Named h (identity st.verifier.mapper t raw) i

  -- What is known of a call in each phase.
  abbrev pub IsRight : Headers → Phase K → Type 0
  IsRight h arrived = Unit
  IsRight h (verifying raw keys) = (token st.verifier.source h ≡ some raw) × Held keys
  IsRight h (accepted raw i) =
      (t : Token) × Accepted h raw t × (i ≡ identity st.verifier.mapper t raw)
  IsRight h (baking raw i keys) =
      ((t : Token) × Accepted h raw t × (i ≡ identity st.verifier.mapper t raw)) × Held keys
  IsRight h (settled raw i) = Earned h raw i
  IsRight h (asking raw uri i) = Earned h raw i × (st.verifier.userinfo ≡ some uri)
  IsRight h (ended (ok i)) = (raw : Bytes) × Earned h raw i
  IsRight h (ended (err e)) =
      ((e ≡ no_credential) × (token st.verifier.source h ≡ none))
      ⊎ ((e ≡ invalid_token)
          × ((raw reason : Bytes) × (token st.verifier.source h ≡ some raw)
              × ((x : Env K) × st.met x
                  × ((set : K) × Genuine set
                      × (x.parse_string raw (options_for st.verifier (some set)) ≡ err reason)))))

  -- What is known of the shared state.
  pub record IsSound (w : World K) : Type 0 where
    pub url_kept : w.key_set.url ≡ st.url
    pub held : Held w.key_set.keys
    pub given :
        (subject : Bytes) (e : Entry)
        → lookup subject w.cache ≡ some e
        → GaveOut subject e.name e.email

  abbrev pub Good : Headers → World K × Phase K → Type 0
  Good h (w, p) = IsSound w × IsRight h p

  pub Named-subject : {h : Headers} {i j : Identity} → Named h i j → j.subject ≡ i.subject
  Named-subject (own e) = ap (λ z. z.subject) e
  Named-subject (cookie t a s e) = ap (λ z. z.subject) e
  Named-subject (endpoint n m g e) = ap (λ z. z.subject) e

  pub Named-shown :
      {h : Headers} {i j : Identity} (n m : Bytes)
      → Named h i j
      → GaveOut j.subject n m
      → Named h i (shown j n m)
  Named-shown {h} {i} {j} n m r g =
      endpoint n m (subst (λ s. GaveOut s n m) (Named-subject r) g) (only_names r)
    where
      only_names : Named h i j → shown j n m ≡ shown i n m
      only_names (own e) = ap (λ z. shown z n m) e
      only_names (cookie t a s e) = ap (λ z. shown z n m) e
      only_names (endpoint x y _ e) = ap (λ z. shown z n m) e
