-- ===== src/Userinfo/Steps.antt =====
-- `fill` as a run of the steps that overlapping calls take.
use gateway_auth.Prelude.{
  ℕ, ◌≡◌, refl, ap, inl, inr, List, [], ◌∷◌, Option, none, some, Option-cases,
}
use gateway_auth.Text.{Bytes}
use gateway_auth.Identity.{Identity}
use gateway_auth.Http.{Network}
use gateway_auth.Userinfo.{Answer, Decoder, Warning, Filled, cached_answer, ask, use_answer, fill}
use gateway_auth.Userinfo.Sharing.{System, Reach, hit, miss, lands, fails, here, next}

module _ (decode : Decoder) (uri : Bytes) where
  -- The steps lead to a state with the cache and the identity that the call leaves, and with no other
  -- call begun or ended.
  abbrev pub Runs : System → Identity → Filled → Type 0
  Runs s i f =
      (t : System) × Reach decode uri s t
      × (t.cache ≡ f.cache)
      × (t.ended ≡ (i, f.filled) ∷ s.ended)
      × (t.in_flight ≡ s.in_flight)

  asked-Runs :
      (net : Network) (now later : ℕ) (access_token : Bytes) (i : Identity) (s : System)
      (r : Option Answer × List Warning)
      → cached_answer s.cache i.subject now ≡ none
      → ask decode net uri access_token i.subject ≡ r
      → Runs s i (use_answer later i s.cache r)
  asked-Runs net now later access_token i s (none, ws) q e = (
    _,
    next (next here (miss i access_token now q refl))
        (fails [] s.in_flight i access_token net refl (ap (λ r. r.0) e) refl),
    refl,
    refl,
    refl,
  )
  asked-Runs net now later access_token i s (some a, ws) q e = (
    _,
    next (next here (miss i access_token now q refl))
        (lands [] s.in_flight i access_token net later a refl (ap (λ r. r.0) e) refl),
    refl,
    refl,
    refl,
  )

  -- From every state, whatever calls are under way, a whole call of `fill` is a run of the steps: it
  -- leaves the cache and the identity that `fill` computes, and the other calls where they were.
  pub fill-Runs :
      (net : Network) (now later : ℕ) (access_token : Bytes) (i : Identity) (s : System)
      → Runs s i (fill decode net now later uri access_token i s.cache)
  unfolding fill
  fill-Runs net now later access_token i s =
      elim (Option-cases (cached_answer s.cache i.subject now)) [
        | inl q ↦ rw q (
            asked-Runs net now later access_token i s (ask decode net uri access_token i.subject) q
              refl)
        | inr (e, q) ↦ rw q (_, next here (hit i now e q refl), refl, refl, refl)
      ]
