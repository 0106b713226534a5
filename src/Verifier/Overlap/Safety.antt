-- ===== src/Verifier/Overlap/Safety.antt =====
-- Every move, arrival and tick keeps what is known.
use gateway_auth.Prelude.{
  ℕ, zero, suc, ◌≡◌, refl, ap, sym, subst, inl, inr, ◌&&◌, not, List, [], ◌∷◌, Option, none, some,
  Result, ok, err, Bool-cases, is_empty, All, All-append, arith,
}
use gateway_auth.Text.{Bytes, codes, same, same_iff}
use gateway_auth.Identity.{Identity, Headers}
use gateway_auth.Source.{token}
use gateway_auth.Claims.{Token, or_empty, string_claim, identity}
use gateway_auth.Http.{Network}
use gateway_auth.KeySet.Refresh.{Fetches, refresh_cases}
use gateway_auth.Userinfo.{
  Entry, Answer, Cache, lookup, cached_answer, ask, store, use_answer, Warning,
}
use gateway_auth.Userinfo.Fill.{Answers, shown, ask_sound, lookup-store, fresh_only_sound}
use gateway_auth.Verifier.{World, Env, options_for, is_nameless}
use gateway_auth.Verifier.State.{tick_world}
use gateway_auth.Verifier.Overlap.{
  Phase, arrived, verifying, accepted, baking, settled, asking, ended, Call, System, begin,
  verified, cookie_of, bake, baked, found, look, settle, land, move, move_at, Action, arrives,
  moves, ticks, act, run,
}
use gateway_auth.Verifier.Overlap.Rests.{
  Setting, Genuine, GaveOut, Named, Accepted, Earned, IsRight, IsSound, Good, Named-subject,
  Named-shown, own, cookie,
}

module _ {K : Type 0} (st : Setting K) where
  begin-Good :
      (h : Headers) (w : World K) (o : Option Bytes)
      → token st.verifier.source h ≡ o
      → IsSound st w
      → Good st h (begin w o)
  begin-Good h w none q s = (s, inl (refl, q))
  begin-Good h w (some raw) q s = (s, (q, s.held))

  module _ (env : Env K) (met : st.met env) where
    verified-Good :
        (h : Headers) (w : World K) (raw : Bytes) (set : K) (r : Result Bytes Token)
        → env.parse_string raw (options_for st.verifier (some set)) ≡ r
        → token st.verifier.source h ≡ some raw
        → Genuine st set
        → IsSound st w
        → Good st h (verified env st.verifier w raw r)
    verified-Good h w raw set (err x) p q g s = (
      record { url_kept = s.url_kept; held = s.held; given = s.given },
      inr (refl, (raw, x, q, (env, met, (set, g, p)))),
    )
    verified-Good h w raw set (ok t) p q g s = (s, (t, (q, (env, met, (set, g, p))), refl))

    baked-Good :
        (h : Headers) (w : World K) (raw : Bytes) (i : Identity) (set : K) (r : Result Bytes Token)
        → env.parse_string (cookie_of st.verifier h) (options_for st.verifier (some set)) ≡ r
        → ((t : Token) × Accepted st h raw t × (i ≡ identity st.verifier.mapper t raw))
        → Genuine st set
        → IsSound st w
        → Good st h (baked env st.verifier w raw i r)
    baked-Good h w raw i set (err x) p (t, a, e) g s =
        (record { url_kept = s.url_kept; held = s.held; given = s.given }, (t, a, own e))
    baked-Good h w raw i set (ok c) p (t, a, e) g s =
        elim (Bool-cases (same (or_empty c.subject) i.subject)) [
          | inl f ↦ rw f (
            s,
            (
              t,
              a,
              subst
                  (λ z.
                    Named st h z
                      (shown i (string_claim c (codes "name")) (string_claim c (codes "email"))))
                  e
                  (cookie c (env, met, (set, g, p)) ((same_iff (or_empty c.subject) i.subject).0 f)
                    refl),
            ),
          )
          | inr f ↦ rw f (s, (t, a, own e))
        ]

    bake-Good :
        (h : Headers) (w : World K) (raw : Bytes) (i : Identity)
        → ((t : Token) × Accepted st h raw t × (i ≡ identity st.verifier.mapper t raw))
        → IsSound st w
        → Good st h (bake env st.verifier h w raw i)
    bake-Good h w raw i (t, a, e) s =
        elim (Bool-cases (
          is_nameless i
          && not (is_empty st.verifier.display_cookie)
          && not (is_empty (cookie_of st.verifier h)))) [
            | inl f ↦ rw f (s, ((t, a, e), s.held))
            | inr f ↦ rw f (s, (t, a, own e))
          ]

    found-Good :
        (h : Headers) (w : World K) (raw uri : Bytes) (i : Identity) (o : Option Entry)
        → cached_answer w.cache i.subject env.now ≡ o
        → st.verifier.userinfo ≡ some uri
        → Earned st h raw i
        → IsSound st w
        → Good st h (found w raw uri i o)
    unfolding cached_answer
    found-Good h w raw uri i none q u r s = (s, (r, u))
    found-Good h w raw uri i (some e) q u (t, a, r) s =
        let stored : lookup i.subject w.cache ≡ some e =
          (fresh_only_sound env.now (lookup i.subject w.cache) e q).0 in
        (s, (raw, (t, a, Named-shown st e.name e.email r (s.given i.subject e stored))))

    look-Good :
        (h : Headers) (w : World K) (raw : Bytes) (i : Identity) (o : Option Bytes)
        → st.verifier.userinfo ≡ o
        → Earned st h raw i
        → IsSound st w
        → Good st h (look env st.verifier w raw i o)
    look-Good h w raw i none u r s = (s, (raw, r))
    look-Good h w raw i (some uri) u r s = found-Good h w raw uri i _ refl u r s

    settle-Good :
        (h : Headers) (w : World K) (raw : Bytes) (i : Identity)
        → Earned st h raw i
        → IsSound st w
        → Good st h (settle env st.verifier w raw i)
    settle-Good h w raw i r s = elim (Bool-cases (is_nameless i)) [
      | inl f ↦ rw f (look-Good h w raw i st.verifier.userinfo refl r s)
      | inr f ↦ rw f (s, (raw, r))
    ]

    stored-GaveOut :
        (c : Cache) (subject : Bytes) (a : Answer) (now : ℕ)
        → GaveOut st subject a.name a.email
        → ((j : Bytes) (e : Entry) → lookup j c ≡ some e → GaveOut st j e.name e.email)
        → (j : Bytes) (e : Entry) → lookup j (store subject a now c) ≡ some e
        → GaveOut st j e.name e.email
    stored-GaveOut c subject a now g old j e q = elim (Bool-cases (same subject j)) [
      | inl f ↦
          let made : ◌≡◌ {A = Option Entry}
              (some (record { name = a.name; email = a.email; fetched_at = now })) (some e) =
            ground (arith, lookup-store subject j a now c) in
          let given : e ≡ record { name = a.name; email = a.email; fetched_at = now } =
            ground arith in
          subst (λ z. GaveOut st j z.name z.email) (sym given)
            (subst (λ z. GaveOut st z a.name a.email) ((same_iff subject j).0 f) g)
      | inr f ↦ old j e (ground (arith, lookup-store subject j a now c))
    ]

    land-Good :
        (h : Headers) (w : World K) (raw uri : Bytes) (i : Identity)
        (r : Option Answer × List Warning)
        → ask env.decode env.net uri raw i.subject ≡ r
        → st.verifier.userinfo ≡ some uri
        → Earned st h raw i
        → IsSound st w
        → Good st h (land env st.verifier w i (use_answer env.later i w.cache r))
    unfolding identity
    land-Good h w raw uri i (none, ws) q u r s =
        (record { url_kept = s.url_kept; held = s.held; given = s.given }, (raw, r))
    land-Good h w raw uri i (some a, ws) q u (t, ac, r) s =
        let heard : Answers env.decode env.net uri raw i.subject a =
          ask_sound env.decode env.net uri raw i.subject a (ap (λ z. z.0) q) in
        let g : GaveOut st i.subject a.name a.email =
          (env, met, (uri, raw, t, a, u, ac.1, sym (Named-subject st r), heard, refl, refl)) in
        (
          record {
            url_kept = s.url_kept;
            held = s.held;
            given = stored-GaveOut w.cache i.subject a env.later g s.given;
          },
          (raw, (t, ac, Named-shown st a.name a.email r g)),
        )

    -- A move keeps what is known of the shared state, and of the call that makes it.
    move-Good :
        (h : Headers) (w : World K) (p : Phase K)
        → IsSound st w
        → IsRight st h p
        → Good st h (move env st.verifier h w p)
    unfolding move
    move-Good h w arrived s r = begin-Good h w (token st.verifier.source h) refl s
    move-Good h w (verifying raw keys) s (q, (set, k, g)) =
        subst
          (λ z.
            Good st h
              (verified env st.verifier w raw (env.parse_string raw (options_for st.verifier z))))
          (sym k) (verified-Good h w raw set _ refl q g s)
    move-Good h w (accepted raw i) s r = bake-Good h w raw i r s
    move-Good h w (baking raw i keys) s (r, (set, k, g)) =
        subst
          (λ z. Good st h (
            baked env st.verifier w raw i
              (env.parse_string (cookie_of st.verifier h) (options_for st.verifier z))))
          (sym k) (baked-Good h w raw i set _ refl r g s)
    move-Good h w (settled raw i) s r = settle-Good h w raw i r s
    move-Good h w (asking raw uri i) s (r, u) = land-Good h w raw uri i _ refl u r s
    move-Good h w (ended r) s q = (s, q)

    move_at-Good :
        (n : ℕ) (w : World K) (cs : List (Call K))
        → IsSound st w
        → All (λ c. IsRight st c.0 c.1) cs
        → IsSound st (move_at env st.verifier n w cs).0
          × All (λ c. IsRight st c.0 c.1) (move_at env st.verifier n w cs).1
    unfolding move_at
    move_at-Good n w [] s a = (s, a)
    move_at-Good zero w ((h, p) ∷ cs) s (r, a) = let (s', r') = move-Good h w p s r in (s', (r', a))
    move_at-Good (suc n) w (c ∷ cs) s (r, a) =
        let (s', a') = move_at-Good n w cs s a in (s', (r, a'))

  -- The invariant of the whole.
  pub record Inv (s : System K) : Type 0 where
    pub sound : IsSound st s.world
    pub right : All (λ c. IsRight st c.0 c.1) s.calls

  -- The predicates hold of what the action meets.
  abbrev pub Meets : Action K → Type 0
  Meets (arrives h) = Unit
  Meets (moves n env) = st.met env
  Meets (ticks net) = st.ticked net

  tick-IsSound :
      (net : Network) (w : World K)
      → st.ticked net
      → IsSound st w
      → IsSound st (tick_world st.jwk net w)
  unfolding tick_world
  tick-IsSound net w n s = elim (refresh_cases st.jwk w.key_set net) [
    | inl (x, _, e) ↦ rw e (record { url_kept = s.url_kept; held = s.held; given = s.given })
    | inr (set, f, e) ↦ rw e (record {
      url_kept = s.url_kept;
      held = (set, refl, (net, n, subst (λ b. Fetches st.jwk net b set) s.url_kept f));
      given = s.given;
    })
  ]

  act-Inv : (a : Action K) (s : System K) → Meets a → Inv s → Inv (act st.jwk st.verifier a s)
  unfolding act
  act-Inv (arrives h) s m i = record {
    sound = i.sound;
    right = All-append (λ c. IsRight st c.0 c.1) s.calls ((h, arrived) ∷ []) i.right (tt, tt);
  }
  act-Inv (moves n env) s m i =
      let (s', r') = move_at-Good env m n s.world s.calls i.sound i.right in
      record { sound = s'; right = r' }
  act-Inv (ticks net) s m i = record { sound = tick-IsSound net s.world m i.sound; right = i.right }

  pub run-Inv :
      (acts : List (Action K)) (s : System K)
      → All Meets acts
      → Inv s
      → Inv (run st.jwk st.verifier acts s)
  unfolding run
  run-Inv [] s m i = i
  run-Inv (a ∷ acts) s (m, ms) i = run-Inv acts (act st.jwk st.verifier a s) ms (act-Inv a s m i)
