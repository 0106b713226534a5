-- ===== src/Verifier/Overlap/Alone.antt =====
-- A call that nothing overlaps.
use gateway_auth.Prelude.{
  ℕ, zero, suc, ◌≡◌, refl, ap, ◌∙◌, sym, true, List, [], ◌∷◌, ◌++◌, Option, none, some, Result, ok,
  err, Bool-cases, inl, inr, is_empty, length, append-nil,
}
use gateway_auth.Text.{Bytes}
use gateway_auth.Identity.{Identity, Headers, AuthResult}
use gateway_auth.Source.{token}
use gateway_auth.Claims.{Token, identity}
use gateway_auth.KeySet.{Jwk}
use gateway_auth.Userinfo.{Entry, cached_answer, fill}
use gateway_auth.Verifier.{
  Verifier, World, Env, options, options_for, parse, is_nameless, use_cookie,
  fill_from_display_cookie, fill_from, from_cookie, from_userinfo, display, accept, check,
  authenticate,
}
use gateway_auth.Verifier.Overlap.{
  Phase, arrived, accepted, settled, ended, Call, System, begin, verified, cookie_of, found, look,
  move, move_at, Action, arrives, moves, run,
}

module _ {K : Type 0} (env : Env K) (v : Verifier) (h : Headers) where
  -- So many moves, with nothing between them.
  abbrev turns : ℕ → World K × Phase K → World K × Phase K
  turns zero s = s
  turns (suc n) s = turns n (move env v h s.0 s.1)

  -- A result, and the state that goes with it.
  abbrev over : AuthResult × World K → World K × Phase K
  over (r, w) = (w, ended r)

  abbrev given : Identity × World K → World K × Phase K
  given (i, w) = (w, ended (ok i))

  turns-found :
      (w : World K) (raw uri : Bytes) (i : Identity) (o : Option Entry)
      → cached_answer w.cache i.subject env.now ≡ o
      → turns 1 (found w raw uri i o) ≡ given (fill_from env v (some uri) raw i w)
  unfolding move fill
  turns-found w raw uri i none q = rw q refl
  turns-found w raw uri i (some e) q = rw q (
      ap (λ l. (record w { log = l }, ended (ok (record i { name = e.name; email = e.email }))))
        (sym (append-nil w.log)))

  turns-look :
      (w : World K) (raw : Bytes) (i : Identity) (o : Option Bytes)
      → turns 1 (look env v w raw i o) ≡ given (fill_from env v o raw i w)
  unfolding move
  turns-look w raw i none = refl
  turns-look w raw i (some uri) = turns-found w raw uri i _ refl

  -- From the second fallback on.
  turns-settled :
      (w : World K) (raw : Bytes) (i : Identity)
      → turns 2 (w, settled raw i) ≡ given (from_userinfo env v raw i w)
  unfolding move from_userinfo
  turns-settled w raw i = elim (Bool-cases (is_nameless i)) [
    | inl f ↦ rw f (turns-look w raw i v.userinfo)
    | inr f ↦ rw f refl
  ]

  turns-baked :
      (w : World K) (raw : Bytes) (i : Identity)
      → is_nameless i ≡ true
      → turns 4 (w, accepted raw i) ≡ given (display env v h raw i w)
  unfolding move display fill_from_display_cookie parse options from_cookie
  turns-baked w raw i f = elim (Bool-cases (is_empty v.display_cookie)) [
    | inl off ↦ rw (f, off) (ap (turns 1) (turns-settled w raw i))
    | inr on ↦ elim (Bool-cases (is_empty (cookie_of v h))) [
      | inl none_here ↦ rw (f, on, none_here) (ap (turns 1) (turns-settled w raw i))
      | inr here ↦
          rw (f, on, here)
            (let r =
                use_cookie env v i w
                  (env.parse_string (cookie_of v h) (options_for v w.key_set.keys)) in
              turns-settled r.1 raw r.0)
    ]
  ]

  turns-accepted :
      (w : World K) (raw : Bytes) (i : Identity)
      → turns 4 (w, accepted raw i) ≡ given (display env v h raw i w)
  turns-accepted w raw i = elim (Bool-cases (is_nameless i)) [
    | inl f ↦ turns-baked w raw i f
    | inr f ↦ unfold move display from_cookie in rw f (ap (turns 1) (turns-settled w raw i))
  ]

  turns-verified :
      (w : World K) (raw : Bytes) (r : Result Bytes Token)
      → turns 4 (verified env v w raw r) ≡ over (accept env v h raw w r)
  turns-verified w raw (err e) = unfold move in refl
  turns-verified w raw (ok t) = turns-accepted w raw (identity v.mapper t raw)

  turns-begin : (w : World K) (o : Option Bytes) → turns 5 (begin w o) ≡ over (check env v h w o)
  unfolding move parse options
  turns-begin w none = refl
  turns-begin w (some raw) =
      turns-verified w raw (env.parse_string raw (options_for v w.key_set.keys))

  turns-arrived : (w : World K) → turns 6 (w, arrived) ≡ over (authenticate env v h w)
  unfolding move authenticate
  turns-arrived w = turns-begin w (token v.source h)

  move_at-last :
      (w : World K) (cs : List (Call K)) (p : Phase K)
      → move_at env v (length cs) w (cs ++ (h, p) ∷ [])
        ≡ ((move env v h w p).0, cs ++ (h, (move env v h w p).1) ∷ [])
  unfolding move_at
  move_at-last w [] p = refl
  move_at-last w (c ∷ cs) p = ap (λ r. (r.0, c ∷ r.1)) (move_at-last w cs p)

-- So many moves of one call.
abbrev pub moves_only : {K : Type 0} → ℕ → ℕ → Env K → List (Action K)
moves_only zero j env = []
moves_only (suc n) j env = moves j env ∷ moves_only n j env

module _ {K : Type 0} (jwk : Jwk K) (env : Env K) (v : Verifier) (h : Headers) where
  run-turns :
      (n : ℕ) (cs : List (Call K)) (s : World K × Phase K)
      → run jwk v
          (moves_only n (length cs) env)
          (record { world = s.0; calls = cs ++ (h, s.1) ∷ [] })
        ≡ record { world = (turns env v h n s).0; calls = cs ++ (h, (turns env v h n s).1) ∷ [] }
  unfolding run
  run-turns zero cs s = refl
  run-turns (suc n) cs s =
      ap (λ r. run jwk v (moves_only n (length cs) env) (record { world = r.0; calls = r.1 }))
        (move_at-last env v h s.0 cs s.1)
      ∙ run-turns n cs (move env v h s.0 s.1)

  -- A call that nothing overlaps takes six moves to what `Authenticate` returns, and leaves the state
  -- that `Authenticate` leaves; the calls before it are where they were.
  pub run-authenticate :
      (s : System K)
      → run jwk v (arrives h ∷ moves_only 6 (length s.calls) env) s ≡ record {
        world = (authenticate env v h s.world).1;
        calls = s.calls ++ (h, ended (authenticate env v h s.world).0) ∷ [];
      }
  unfolding run
  run-authenticate s =
      run-turns 6 s.calls (s.world, arrived)
      ∙ ap (λ r. record { world = r.0; calls = s.calls ++ (h, r.1) ∷ [] })
          (turns-arrived env v h s.world)
