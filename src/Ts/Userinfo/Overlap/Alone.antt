-- ===== src/Ts/Userinfo/Overlap/Alone.antt =====
-- A call of the port's `fill` that nothing overlaps.
use gateway_auth.Prelude.{
  ℕ, ◌≡◌, refl, ap, ◌++◌, List, [], ◌∷◌, some, length, Option-cases, inl, inr,
}
use gateway_auth.Ts.Strings.{Units}
use gateway_auth.Ts.Identity.{Identity}
use gateway_auth.Ts.Userinfo.{get, Fetch, Filled, fresh, fill}
use gateway_auth.Ts.Userinfo.Overlap.{
  Call, System, awaiting, settled, comes, lands, begin, resume, land, turn, run,
}

module _ (uri : Units) (fetch : Fetch) (later : ℕ) where
  -- The last call is landed as if it were the only one.
  land-append :
      (calls : List Call) (c : Call) (s : System)
      → land uri (length calls) fetch later (calls ++ c ∷ []) s ≡ (
          let t = resume uri fetch later (record s { calls = [] }) [] c in
          record t { calls = calls ++ t.calls })
  unfolding land
  land-append [] (awaiting access_token i) s = refl
  land-append [] (settled i r) s = refl
  land-append (d ∷ calls) c s =
      ap (λ (t : System). record t { calls = d ∷ t.calls })
        (land-append calls c (record s { calls = calls ++ c ∷ [] }))

  -- The state that a whole call of `fill` leaves.
  abbrev after_fill : Identity → System → Filled → System
  after_fill i s f = record {
    cache = f.cache;
    calls = s.calls ++ settled i f.result ∷ [];
    warnings = f.warnings ++ s.warnings;
  }

  -- A call whose response comes before anything else happens leaves the cache, the result and the
  -- warnings of `fill`, and the other calls where they were.
  pub run-fill :
      (now : ℕ) (access_token : Units) (i : Identity) (s : System)
      → run uri (comes now access_token i ∷ lands (length s.calls) fetch later ∷ []) s
        ≡ after_fill i s (fill fetch now later uri access_token i s.cache)
  unfolding run turn fill
  run-fill now access_token i s = elim (Option-cases (fresh now (get s.cache i.subject))) [
    | inl q ↦ rw (fill, q) (land-append s.calls (awaiting access_token i) _)
    | inr (e, q) ↦ rw (fill, q) (land-append s.calls (begin uri access_token i (some e)) _)
  ]
