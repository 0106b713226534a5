-- ===== src/Ts/Userinfo/Conforms.antt =====
-- The userinfo fallback of the two ports.
use gateway_auth.Prelude.{
  ℕ, ◌==◌, ◌*◌, ◌≡◌, ◌≢◌, refl, ap, ◌∙◌, sym, subst, inl, inr, ◌++◌, [], Option, none, some, Result,
  ok, err, Bool-cases, arith, ◌⊎◌,
}
use gateway_auth.Text.{Bytes, codes, same}
use gateway_auth.Http.{Exchange, not_built, failed, answered, Network, status_ok}
use gateway_auth.Identity as GoIdentity
use gateway_auth.Userinfo as Go
use gateway_auth.Http as Http
use gateway_auth.Userinfo.{lookup, fresh_only, cached_answer, ask, store, use_answer, use_cached}
use gateway_auth.Ts.Strings.{Units, or_blank}
use gateway_auth.Ts.Identity.{Identity}
use gateway_auth.Ts.Claims.Conforms.{SameIdentity}
use gateway_auth.Ts.Userinfo.{
  Cache, Entry, get, set, Body, Members, members, null, Response, Fetch, Filled, is_ok, fresh,
  is_about, use_body, use_response, use_entry, fill,
}
use gateway_auth.Ts.Userinfo as Port
use gateway_auth.Ts.Userinfo.Alike.{
  nanos, SameEntry, SameCache, SameAnswer, SameExchange, SameFilled, fresh-SameEntry, is_about-same,
  store-SameCache, IsApart,
}

named :
    (i : GoIdentity.Identity) (j : Identity) (n m : Bytes) (n' m' : Units)
    → SameIdentity i j
    → n ≡ n'
    → m ≡ m'
    → SameIdentity (record i { name = n; email = m }) (record j { name = n'; email = m' })
named i j n m n' m' p e f = record {
  subject = p.subject;
  name = e;
  email = f;
  roles = p.roles;
  token = p.token;
}

about-SameFilled :
    (later : ℕ) (i : GoIdentity.Identity) (j : Identity) (c : Go.Cache) (d : Cache) (a : Go.Answer)
    (m : Members)
    → SameIdentity i j
    → i.subject ≢ []
    → SameCache c d
    → SameAnswer (ok a) (ok (members m))
    → SameFilled
        (use_answer (nanos * later) i c (Go.about i.subject (ok a)))
        (use_body later j d (ok (members m)))
unfolding SameAnswer use_body
about-SameFilled later i j c d a m p ne h (q, n, e) =
    let port_test : is_about m.sub j.subject ≡ same a.sub i.subject =
      ap (is_about m.sub) (sym p.subject) ∙ is_about-same a m.sub i.subject q ne in
    elim (Bool-cases (same a.sub i.subject)) [
      | inl y ↦
          rw (port_test ∙ y, y)
            (record {
              left = _;
              resolves = refl;
              identity = named i j a.name a.email (or_blank m.name) (or_blank m.email) p n e;
              cache =
                  subst
                    (λ s. SameCache (store i.subject a (nanos * later) c) (
                      set d s (record {
                        name = or_blank m.name;
                        email = or_blank m.email;
                        fetched_at = later;
                      })))
                    p.subject (store-SameCache c d i.subject a _ h n e);
            })
      | inr y ↦
          rw (port_test ∙ y, y) (record { left = j; resolves = refl; identity = p; cache = h })
    ]

answer-SameFilled :
    (later : ℕ) (i : GoIdentity.Identity) (j : Identity) (c : Go.Cache) (d : Cache)
    (r : Result Bytes Go.Answer) (b : Result Units Body)
    → SameIdentity i j
    → i.subject ≢ []
    → SameCache c d
    → SameAnswer r b
    → SameFilled (use_answer (nanos * later) i c (Go.about i.subject r)) (use_body later j d b)
      ⊎ (b ≡ ok null)
answer-SameFilled later i j c d (err e) (err u) p ne h x =
    inl (unfold use_body in record { left = j; resolves = refl; identity = p; cache = h })
answer-SameFilled later i j c d (err e) (ok b) p ne h x = absurd (unfold SameAnswer in x)
answer-SameFilled later i j c d (ok a) (err u) p ne h x = absurd (unfold SameAnswer in x)
answer-SameFilled later i j c d (ok a) (ok null) p ne h x = inr refl
answer-SameFilled later i j c d (ok a) (ok (members m)) p ne h x =
    inl (about-SameFilled later i j c d a m p ne h x)

response-SameFilled :
    (decode : Go.Decoder) (later : ℕ) (i : GoIdentity.Identity) (j : Identity) (c : Go.Cache)
    (d : Cache) (code : ℕ) (body : Http.Body) (b : Result Units Body)
    → SameIdentity i j
    → i.subject ≢ []
    → SameCache c d
    → SameAnswer (decode body) b
    → SameFilled
        (use_answer (nanos * later) i c (Go.receive_answer decode i.subject (answered code body)))
        (use_response later j d (Port.answered code b))
      ⊎ IsApart (Port.answered code b)
unfolding Go.receive_answer use_response IsApart
response-SameFilled decode later i j c d code body b p ne h x = elim (Bool-cases (code == 200)) [
  | inl y ↦
      let at : code ≡ 200 = ground arith in
      elim (answer-SameFilled later i j c d (decode body) b p ne h x) [
        | inl f ↦ inl (rw at f)
        | inr e ↦ inr (rw at refl, inr e)
      ]
  | inr n ↦ elim (Bool-cases (is_ok code)) [
    | inl y ↦ inr (y, inl (λ e. ground arith))
    | inr k ↦ inl (rw (n, k) (record { left = j; resolves = refl; identity = p; cache = h }))
  ]
]

-- From the exchange on.
exchange-SameFilled :
    (decode : Go.Decoder) (later : ℕ) (i : GoIdentity.Identity) (j : Identity) (c : Go.Cache)
    (d : Cache) (x : Exchange) (r : Response)
    → SameIdentity i j
    → i.subject ≢ []
    → SameCache c d
    → SameExchange decode x r
    → SameFilled
        (use_answer (nanos * later) i c (Go.receive_answer decode i.subject x))
        (use_response later j d r)
      ⊎ IsApart r
exchange-SameFilled decode later i j c d (not_built e) (Port.failed u) p ne h x =
    unfold Go.receive_answer use_response in
    inl (record { left = j; resolves = refl; identity = p; cache = h })
exchange-SameFilled decode later i j c d (failed e) (Port.failed u) p ne h x =
    unfold Go.receive_answer use_response in
    inl (record { left = j; resolves = refl; identity = p; cache = h })
exchange-SameFilled decode later i j c d (not_built e) (Port.answered code b) p ne h x =
    absurd (unfold SameExchange in x)
exchange-SameFilled decode later i j c d (failed e) (Port.answered code b) p ne h x =
    absurd (unfold SameExchange in x)
exchange-SameFilled decode later i j c d (answered s body) (Port.failed u) p ne h x =
    absurd (unfold SameExchange in x)
exchange-SameFilled decode later i j c d (answered s body) (Port.answered code b) p ne h x =
    let (e, y) : (s ≡ code) × SameAnswer (decode body) b = unfold SameExchange in x in
    rw e (response-SameFilled decode later i j c d code body b p ne h y)

cached-SameFilled :
    (i : GoIdentity.Identity) (j : Identity) (c : Go.Cache) (d : Cache) (f : Go.Filled) (g : Filled)
    (o : Option Go.Entry) (q : Option Entry)
    → SameIdentity i j
    → SameCache c d
    → SameEntry o q
    → SameFilled f g
    → SameFilled (use_cached i c f o) (elim q [ none ↦ g | some e ↦ use_entry j d e ])
cached-SameFilled i j c d f g none none p h x r = r
cached-SameFilled i j c d f g none (some u) p h x r = absurd (unfold SameEntry in x)
cached-SameFilled i j c d f g (some e) none p h x r = absurd (unfold SameEntry in x)
cached-SameFilled i j c d f g (some e) (some u) p h x r =
    let (n, m, _) : (e.name ≡ u.name)
        × (e.email ≡ u.email)
        × (e.fetched_at ≡ nanos * u.fetched_at) =
      unfold SameEntry in x in
    record { left = _; resolves = refl; identity = named i j _ _ _ _ p n m; cache = h }

-- On one request of one caller with a subject, with the clocks together, caches that are alike and an
-- endpoint that does the same to both, `fill` of the two ports leaves the same identity and caches that
-- are alike; or the endpoint's response is one that they take differently.
pub fill-SameFilled :
    (decode : Go.Decoder) (net : Network) (fetch : Fetch) (now later : ℕ) (uri raw : Bytes)
    (i : GoIdentity.Identity) (j : Identity) (c : Go.Cache) (d : Cache)
    → SameIdentity i j
    → i.subject ≢ []
    → SameCache c d
    → SameExchange decode
        (net (record { url = uri; authorization = some (codes "Bearer " ++ raw) }))
        (fetch uri (codes "Bearer " ++ raw))
    → SameFilled
        (Go.fill decode net (nanos * now) (nanos * later) uri raw i c)
        (fill fetch now later uri raw j d)
      ⊎ IsApart (fetch uri (codes "Bearer " ++ raw))
unfolding Go.fill Go.ask cached_answer fill
fill-SameFilled decode net fetch now later uri raw i j c d p ne h x =
    elim (exchange-SameFilled decode later i j c d
      (net (record { url = uri; authorization = some (codes "Bearer " ++ raw) }))
      (fetch uri (codes "Bearer " ++ raw)) p ne h x) [
        | inl f ↦ inl (
            cached-SameFilled i j c d _ _ (cached_answer c i.subject (nanos * now))
              (fresh now (get d j.subject)) p h same_entry f)
        | inr a ↦ inr a
      ]
  where
    same_entry : SameEntry (cached_answer c i.subject (nanos * now)) (fresh now (get d j.subject))
    same_entry =
        subst (λ s. SameEntry (fresh_only (nanos * now) (lookup i.subject c)) (fresh now (get d s)))
          p.subject (fresh-SameEntry now (lookup i.subject c) (get d i.subject) (h i.subject))
