-- ===== src/Verifier/Display.antt =====
-- The two fallbacks for the display claims: where a name and an email may come from.
use gateway_auth.Prelude.{
  ◌-◌, ◌<◌, ◌≡◌, ◌≢◌, refl, ap, ◌∙◌, sym, ◌⊎◌, inl, inr, true, false, List, [], ◌∷◌, ◌++◌, Option,
  none, some, Result, ok, err, Bool-cases, is_empty, ne-nil_of_is_empty, append-nil, append_assoc,
  subst,
}
use gateway_auth.Text.{Bytes, codes, same, same_iff}
use gateway_auth.Identity.{Identity, Headers}
use gateway_auth.Claims.{Token, or_empty, string_claim}
use gateway_auth.Userinfo.{Entry, Answer, lookup, userinfo_ttl, Filled}
use gateway_auth.Userinfo.Fill.{Answers, shown, Outcome, kept, cached, asked, fill-Outcome}
use gateway_auth.Verifier.{
  Verifier, World, Env, Event, cookie_rejected, cookie_value, header_cookie, is_nameless, parse,
  use_cookie, fill_from_display_cookie, fill_from, from_cookie, from_userinfo, display,
}

-- A step that leaves the keys alone and only adds to the log.
pub record Extends {K : Type 0} (w w' : World K) : Type 0 where
  pub keys_kept : w'.key_set ≡ w.key_set
  pub added : List Event
  pub logged : w'.log ≡ w.log ++ added

module _ {K : Type 0} where
  pub Extends-refl : (w : World K) → Extends w w
  Extends-refl w = record { keys_kept = refl; added = []; logged = sym (append-nil w.log) }

  pub Extends-trans : {u v w : World K} → Extends u v → Extends v w → Extends u w
  Extends-trans {u} a b = record {
    keys_kept = b.keys_kept ∙ a.keys_kept;
    added = a.added ++ b.added;
    logged = b.logged ∙ (rw (a.logged) (append_assoc u.log a.added b.added));
  }

module _ {K : Type 0} (env : Env K) (v : Verifier) (h : Headers) (raw : Bytes) where
  -- The cookie's token is accepted under the same options and has the subject of the identity.
  abbrev pub CookieToken : World K → Identity → Token → Type 0
  CookieToken w i t =
      (v.display_cookie ≢ [])
      × (parse env v w (cookie_value (h header_cookie) v.display_cookie) ≡ ok t)
      × (or_empty t.subject ≡ i.subject)

  -- Where the name and the email of `j` come from, for an identity `i` read off the access token.
  pub data Origin (w : World K) (i j : Identity) : Type 0 where
    own : j ≡ i → Origin w i j
    cookie :
        (t : Token)
        → is_nameless i ≡ true
        → CookieToken w i t
        → j ≡ shown i (string_claim t (codes "name")) (string_claim t (codes "email"))
        → Origin w i j
    cached_entry :
        (uri : Bytes) (e : Entry)
        → is_nameless i ≡ true
        → v.userinfo ≡ some uri
        → lookup i.subject w.cache ≡ some e
        → env.now - e.fetched_at < userinfo_ttl
        → j ≡ shown i e.name e.email
        → Origin w i j
    endpoint :
        (uri : Bytes) (a : Answer)
        → is_nameless i ≡ true
        → v.userinfo ≡ some uri
        → Answers env.decode env.net uri raw i.subject a
        → j ≡ shown i a.name a.email
        → Origin w i j

  -- The first fallback.
  abbrev AfterCookie : Identity → World K → Identity × World K → Type 0
  AfterCookie i w (j, w') =
      ((j ≡ i)
        ⊎ ((t : Token) × CookieToken w i t
            × (j ≡ shown i (string_claim t (codes "name")) (string_claim t (codes "email")))))
      × (w'.cache ≡ w.cache)
      × Extends w w'

  use_cookie-AfterCookie :
      (i : Identity) (w : World K) (r : Result Bytes Token)
      → v.display_cookie ≢ []
      → parse env v w (cookie_value (h header_cookie) v.display_cookie) ≡ r
      → AfterCookie i w (use_cookie env v i w r)
  use_cookie-AfterCookie i w (err e) ne p =
      (inl refl, refl, record { keys_kept = refl; added = cookie_rejected e ∷ []; logged = refl })
  use_cookie-AfterCookie i w (ok t) ne p = elim (Bool-cases (same (or_empty t.subject) i.subject)) [
    | inl f ↦ rw f (
      inr (t, (ne, p, (same_iff (or_empty t.subject) i.subject).0 f), refl),
      refl,
      Extends-refl w,
    )
    | inr f ↦ rw f (inl refl, refl, Extends-refl w)
  ]

  fill_from_display_cookie-AfterCookie :
      (i : Identity) (w : World K) → AfterCookie i w (fill_from_display_cookie env v h i w)
  unfolding fill_from_display_cookie
  fill_from_display_cookie-AfterCookie i w = elim (Bool-cases (is_empty v.display_cookie)) [
    | inl off ↦ rw off (inl refl, refl, Extends-refl w)
    | inr on ↦ elim (Bool-cases (is_empty (cookie_value (h header_cookie) v.display_cookie))) [
      | inl none_here ↦ rw (on, none_here) (inl refl, refl, Extends-refl w)
      | inr here ↦
          rw (on, here) (use_cookie-AfterCookie i w _ (ne-nil_of_is_empty v.display_cookie on) refl)
    ]
  ]

  from_cookie-AfterCookie :
      (i : Identity) (w : World K)
      → is_nameless i ≡ true
      → AfterCookie i w (from_cookie env v h i w)
  unfolding from_cookie
  from_cookie-AfterCookie i w e = rw e (fill_from_display_cookie-AfterCookie i w)

  -- The second fallback.
  abbrev AfterFill : Identity → World K → Identity × World K → Type 0
  AfterFill i w (j, w') =
      ((j ≡ i)
        ⊎ ((uri : Bytes) × (v.userinfo ≡ some uri)
            × (((e : Entry) × (lookup i.subject w.cache ≡ some e)
                  × (env.now - e.fetched_at < userinfo_ttl)
                  × (j ≡ shown i e.name e.email))
                ⊎ ((a : Answer) × Answers env.decode env.net uri raw i.subject a
                    × (j ≡ shown i a.name a.email)))))
      × Extends w w'

  fill_from-AfterFill :
      (o : Option Bytes) (i : Identity) (w : World K)
      → v.userinfo ≡ o
      → AfterFill i w (fill_from env v o raw i w)
  fill_from-AfterFill none i w q = (inl refl, Extends-refl w)
  fill_from-AfterFill (some uri) i w q = (
    by_outcome (fill-Outcome env.decode env.net env.now env.later uri raw i w.cache),
    record { keys_kept = refl; added = _; logged = refl },
  )
    where
      by_outcome :
          {f : Filled}
          → Outcome env.decode env.net env.now env.later uri raw i w.cache f
          → (f.filled ≡ i)
            ⊎ ((u : Bytes) × (v.userinfo ≡ some u)
                × (((e : Entry) × (lookup i.subject w.cache ≡ some e)
                      × (env.now - e.fetched_at < userinfo_ttl)
                      × (f.filled ≡ shown i e.name e.email))
                    ⊎ ((a : Answer) × Answers env.decode env.net u raw i.subject a
                        × (f.filled ≡ shown i a.name a.email))))
      by_outcome (kept e _) = inl e
      by_outcome (cached e l f s _ _) = inr (uri, q, inl (e, l, f, s))
      by_outcome (asked a g s _) = inr (uri, q, inr (a, g, s))

  from_userinfo-AfterFill :
      (i : Identity) (w : World K) → AfterFill i w (from_userinfo env v raw i w)
  unfolding from_userinfo
  from_userinfo-AfterFill i w = elim (Bool-cases (is_nameless i)) [
    | inl e ↦ rw e (fill_from-AfterFill v.userinfo i w refl)
    | inr e ↦ rw e (inl refl, Extends-refl w)
  ]

  module _ (w : World K) (i : Identity) (nameless : is_nameless i ≡ true) where
    -- The second fallback on what the first one left.
    Origin-fill :
        (j k : Identity) (w1 w2 : World K)
        → (n m : Bytes) × (j ≡ shown i n m)
        → Origin w i j
        → w1.cache ≡ w.cache
        → AfterFill j w1 (k, w2)
        → Origin w i k
    Origin-fill j k w1 w2 (n, m, s) o c (inl e, x) = subst (Origin w i) (sym e) o
    Origin-fill j k w1 w2 (n, m, s) o c (inr (uri, q, inl (e, l, f, r)), x) =
        cached_entry uri e nameless q
          (subst (λ b. lookup b w.cache ≡ some e) (ap (λ z. z.subject) s)
            (subst (λ b. lookup j.subject b ≡ some e) c l))
          f (r ∙ ap (λ z. shown z e.name e.email) s)
    Origin-fill j k w1 w2 (n, m, s) o c (inr (uri, q, inr (a, g, r)), x) =
        endpoint uri a nameless q
          (subst (λ b. Answers env.decode env.net uri raw b a) (ap (λ z. z.subject) s) g)
          (r ∙ ap (λ z. shown z a.name a.email) s)

    Origin-cookie :
        (j : Identity) (w1 : World K)
        → AfterCookie i w (j, w1)
        → Origin w i j × ((n m : Bytes) × (j ≡ shown i n m))
    Origin-cookie j w1 (inl e, _, _) = (own e, (i.name, i.email, e))
    Origin-cookie j w1 (inr (t, c, e), _, _) = (cookie t nameless c e, (_, _, e))

    display-nameless :
        Origin w i (display env v h raw i w).0 × Extends w (display env v h raw i w).1
    unfolding display
    display-nameless =
        let a = from_cookie-AfterCookie i w nameless in
        let j = (from_cookie env v h i w).0 in
        let w1 = (from_cookie env v h i w).1 in
        let b = from_userinfo-AfterFill j w1 in
        let (o, s) = Origin-cookie j w1 a in (Origin-fill j _ w1 _ s o a.1 b, Extends-trans a.2 b.1)

  display-named :
      (w : World K) (i : Identity) → is_nameless i ≡ false → display env v h raw i w ≡ (i, w)
  unfolding display from_cookie from_userinfo
  display-named w i e = rw (e, e) refl

  -- An identity with a name or an email keeps both, and nothing is asked or logged. The name and email
  -- of another are its own, or those of a display cookie whose token is accepted under the same
  -- options for the same subject, or those of a cache entry for the subject that is younger than an
  -- hour, or what the endpoint gave about the subject to the caller's own token. The rest of the
  -- identity is the access token's, the keys stay, and the log only grows.
  pub display-Origin :
      (w : World K) (i : Identity)
      → ((is_nameless i ≡ true) ⊎ (display env v h raw i w ≡ (i, w)))
        × Origin w i (display env v h raw i w).0
        × Extends w (display env v h raw i w).1
  display-Origin w i = elim (Bool-cases (is_nameless i)) [
    | inl e ↦ let (o, x) = display-nameless w i e in (inl e, o, x)
    | inr e ↦ let d = display-named w i e in (inr d, rw d (own refl), rw d (Extends-refl w))
  ]
