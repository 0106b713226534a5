-- ===== src/Verifier/Overlap/Outage.antt =====
-- An outage of the provider: refreshes that fail change nothing that a call can see.
use gateway_auth.Prelude.{
  ℕ, zero, suc, ◌++◌, ◌≡◌, refl, ap, ◌∙◌, sym, ◌&&◌, not, List, [], ◌∷◌, Option, none, some, Result,
  ok, err, Bool-cases, inl, inr, is_empty,
}
use gateway_auth.Text.{Bytes}
use gateway_auth.Identity.{Identity, Headers}
use gateway_auth.Source.{token}
use gateway_auth.Claims.{Token}
use gateway_auth.Http.{Network}
use gateway_auth.KeySet.{Jwk, KeySet, RefreshError, fetch_set, refresh}
use gateway_auth.KeySet.Refresh.{refresh-url, refresh-failed}
use gateway_auth.Userinfo.{Cache, Entry, cached_answer}
use gateway_auth.Verifier.{Verifier, World, Env, Event, options_for, is_nameless}
use gateway_auth.Verifier.State.{tick_world}
use gateway_auth.Verifier.Overlap.{
  Phase, arrived, verifying, accepted, baking, settled, asking, ended, Call, System, begin,
  verified, cookie_of, bake, baked, found, look, settle, move, move_at, Action, arrives, moves,
  ticks, act, run,
}

abbrev with_log : {K : Type 0} → List Event → World K → World K
with_log l w = record w { log = l }

module _ {K X : Type 0} where
  -- The shared state but for the log, beside a call or some calls.
  abbrev pub seen : World K × X → KeySet K × Cache × X
  seen (w, x) = (w.key_set, w.cache, x)

  -- The second is what the first is, from a world with another log, and the keys are left as they are.
  record IsBlind (w : World K) (r r' : World K × X) : Type 0 where
    same_seen : seen r' ≡ seen r
    keys_kept : r.0.key_set ≡ w.key_set

module _ {K : Type 0} (env : Env K) (v : Verifier) (l : List Event) where
  begin-IsBlind : (w : World K) (o : Option Bytes) → IsBlind w (begin w o) (begin (with_log l w) o)
  begin-IsBlind w none = record { same_seen = refl; keys_kept = refl }
  begin-IsBlind w (some raw) = record { same_seen = refl; keys_kept = refl }

  verified-IsBlind :
      (w : World K) (raw : Bytes) (r : Result Bytes Token)
      → IsBlind w (verified env v w raw r) (verified env v (with_log l w) raw r)
  verified-IsBlind w raw (ok t) = record { same_seen = refl; keys_kept = refl }
  verified-IsBlind w raw (err e) = record { same_seen = refl; keys_kept = refl }

  bake-IsBlind :
      (h : Headers) (w : World K) (raw : Bytes) (i : Identity)
      → IsBlind w (bake env v h w raw i) (bake env v h (with_log l w) raw i)
  bake-IsBlind h w raw i =
      elim (Bool-cases
        (is_nameless i && not (is_empty v.display_cookie) && not (is_empty (cookie_of v h)))) [
          | inl f ↦ rw f (record { same_seen = refl; keys_kept = refl })
          | inr f ↦ rw f (record { same_seen = refl; keys_kept = refl })
        ]

  baked-IsBlind :
      (w : World K) (raw : Bytes) (i : Identity) (r : Result Bytes Token)
      → IsBlind w (baked env v w raw i r) (baked env v (with_log l w) raw i r)
  baked-IsBlind w raw i (ok t) = record { same_seen = refl; keys_kept = refl }
  baked-IsBlind w raw i (err e) = record { same_seen = refl; keys_kept = refl }

  found-IsBlind :
      (w : World K) (raw uri : Bytes) (i : Identity) (o : Option Entry)
      → IsBlind w (found w raw uri i o) (found (with_log l w) raw uri i o)
  found-IsBlind w raw uri i none = record { same_seen = refl; keys_kept = refl }
  found-IsBlind w raw uri i (some e) = record { same_seen = refl; keys_kept = refl }

  look-IsBlind :
      (w : World K) (raw : Bytes) (i : Identity) (o : Option Bytes)
      → IsBlind w (look env v w raw i o) (look env v (with_log l w) raw i o)
  look-IsBlind w raw i none = record { same_seen = refl; keys_kept = refl }
  look-IsBlind w raw i (some uri) =
      found-IsBlind w raw uri i (cached_answer w.cache i.subject env.now)

  settle-IsBlind :
      (w : World K) (raw : Bytes) (i : Identity)
      → IsBlind w (settle env v w raw i) (settle env v (with_log l w) raw i)
  settle-IsBlind w raw i = elim (Bool-cases (is_nameless i)) [
    | inl f ↦ rw f (look-IsBlind w raw i v.userinfo)
    | inr f ↦ rw f (record { same_seen = refl; keys_kept = refl })
  ]

  move-IsBlind :
      (h : Headers) (w : World K) (p : Phase K)
      → IsBlind w (move env v h w p) (move env v h (with_log l w) p)
  unfolding move
  move-IsBlind h w arrived = begin-IsBlind w (token v.source h)
  move-IsBlind h w (verifying raw keys) =
      verified-IsBlind w raw (env.parse_string raw (options_for v keys))
  move-IsBlind h w (accepted raw i) = bake-IsBlind h w raw i
  move-IsBlind h w (baking raw i keys) =
      baked-IsBlind w raw i (env.parse_string (cookie_of v h) (options_for v keys))
  move-IsBlind h w (settled raw i) = settle-IsBlind w raw i
  move-IsBlind h w (asking raw uri i) = record { same_seen = refl; keys_kept = refl }
  move-IsBlind h w (ended r) = record { same_seen = refl; keys_kept = refl }

  move_at-IsBlind :
      (n : ℕ) (w : World K) (cs : List (Call K))
      → IsBlind w (move_at env v n w cs) (move_at env v n (with_log l w) cs)
  unfolding move_at
  move_at-IsBlind n w [] = record { same_seen = refl; keys_kept = refl }
  move_at-IsBlind zero w ((h, p) ∷ cs) =
      let b = move-IsBlind h w p in
      record {
        same_seen = ap (λ (z : KeySet K × Cache × Phase K). (z.0, z.1, (h, z.2) ∷ cs)) b.same_seen;
        keys_kept = b.keys_kept;
      }
  move_at-IsBlind (suc n) w (c ∷ cs) =
      let b = move_at-IsBlind n w cs in
      record {
        same_seen = ap (λ (z : KeySet K × Cache × List (Call K)). (z.0, z.1, c ∷ z.2)) b.same_seen;
        keys_kept = b.keys_kept;
      }

module _ {K : Type 0} (jwk : Jwk K) (v : Verifier) (url : Bytes) where
  -- The same shared state but for the log, the same calls, and the URL of the keys.
  record IsAlike (s s' : System K) : Type 0 where
    same : seen (s'.world, s'.calls) ≡ seen (s.world, s.calls)
    at_url : s.world.key_set.url ≡ url

  -- The second schedule is the first without some refreshes whose fetch of the keys fails.
  pub data Outage : List (Action K) → List (Action K) → Type 0 where
    over : Outage [] []
    kept :
        {acts acts' : List (Action K)} (a : Action K)
        → Outage acts acts'
        → Outage (a ∷ acts) (a ∷ acts')
    lost :
        {acts acts' : List (Action K)} (net : Network) (e : RefreshError)
        → fetch_set jwk net url ≡ err e
        → Outage acts acts'
        → Outage (ticks net ∷ acts) acts'

  tick-IsAlike :
      (net : Network) (s s' : System K)
      → IsAlike s s'
      → IsAlike (act jwk v (ticks net) s) (act jwk v (ticks net) s')
  unfolding act tick_world
  tick-IsAlike net s s' a = record {
    same =
        ap (λ (z : KeySet K × Cache × List (Call K)). ((refresh jwk z.0 net).1, z.1, z.2)) a.same;
    at_url = refresh-url jwk s.world.key_set net ∙ a.at_url;
  }

  lost-IsAlike :
      (net : Network) (e : RefreshError) (s s' : System K)
      → fetch_set jwk net url ≡ err e
      → IsAlike s s'
      → IsAlike (act jwk v (ticks net) s) s'
  unfolding act tick_world
  lost-IsAlike net e s s' f a =
      let unchanged : (refresh jwk s.world.key_set net).1 ≡ s.world.key_set =
        refresh-failed jwk s.world.key_set net e (ap (fetch_set jwk net) a.at_url ∙ f) in
      record {
        same = a.same ∙ ap (λ (k : KeySet K). (k, s.world.cache, s.calls)) (sym unchanged);
        at_url = ap (λ k. k.url) unchanged ∙ a.at_url;
      }

  act-IsAlike :
      (a : Action K) (s s' : System K) → IsAlike s s' → IsAlike (act jwk v a s) (act jwk v a s')
  act-IsAlike (ticks net) s s' a = tick-IsAlike net s s' a
  act-IsAlike (arrives h) s s' a =
      unfold act in
      record {
        same =
            ap (λ (z : KeySet K × Cache × List (Call K)). (z.0, z.1, z.2 ++ (h, arrived) ∷ []))
              a.same;
        at_url = a.at_url;
      }
  act-IsAlike (moves n env) s s' a =
      let b = move_at-IsBlind env v s'.world.log n s.world s.calls in
      unfold act in
      record {
        same =
            ap
              (λ (z : KeySet K × Cache × List (Call K)).
                seen
                  (move_at env v n (record { key_set = z.0; cache = z.1; log = s'.world.log }) z.2))
              a.same
            ∙ b.same_seen;
        at_url = ap (λ k. k.url) b.keys_kept ∙ a.at_url;
      }

  run-IsAlike :
      {acts acts' : List (Action K)} (s s' : System K)
      → Outage acts acts'
      → IsAlike s s'
      → IsAlike (run jwk v acts s) (run jwk v acts' s')
  unfolding run
  run-IsAlike s s' over a = a
  run-IsAlike s s' (kept b o) a =
      run-IsAlike (act jwk v b s) (act jwk v b s') o (act-IsAlike b s s' a)
  run-IsAlike s s' (lost net e f o) a =
      run-IsAlike (act jwk v (ticks net) s) s' o (lost-IsAlike net e s s' f a)

  -- However often the refresh of the keys fails, and whenever: every call comes as far, with the same
  -- result, as it does in the schedule without the refreshes that fail, and the keys and the cache are
  -- the same; only the log tells.
  pub run-Outage :
      (acts acts' : List (Action K)) (s : System K)
      → s.world.key_set.url ≡ url
      → Outage acts acts'
      → seen ((run jwk v acts' s).world, (run jwk v acts' s).calls)
        ≡ seen ((run jwk v acts s).world, (run jwk v acts s).calls)
  run-Outage acts acts' s u o = (run-IsAlike s s o (record { same = refl; at_url = u })).same
