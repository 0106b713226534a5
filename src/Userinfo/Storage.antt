-- ===== src/Userinfo/Storage.antt =====
-- What a call of `fill` does to the cache, and to a later call.
use gateway_auth.Prelude.{
  ℕ, ◌+◌, ◌≤◌, ◌<◌, ◌≡◌, ◌≢◌, refl, sym, subst, inl, inr, List, [], ◌∷◌, none, some, All, length,
  Bool-cases, arith,
}
use gateway_auth.Text.{Bytes, same, same_iff}
use gateway_auth.Identity.{Identity}
use gateway_auth.Http.{Network}
use gateway_auth.Userinfo.{
  userinfo_ttl, Entry, Cache, lookup, insert, Answer, Decoder, Warning, cached_answer, ask, store,
  Filled, fill,
}
use gateway_auth.Userinfo.Fill.{
  shown, lookup-store, Outcome, kept, cached, asked, fill-Outcome, fill-store,
}

-- No subject has two entries.
abbrev pub IsDistinct : Cache → Type 0
IsDistinct [] = Unit
IsDistinct ((s, e) ∷ c) = All (λ x. x.0 ≢ s) c × IsDistinct c

insert-All :
    (s k : Bytes) (e : Entry) (c : Cache)
    → k ≢ s
    → All (λ x. x.0 ≢ s) c
    → All (λ x. x.0 ≢ s) (insert k e c)
unfolding insert
insert-All s k e [] n h = (n, tt)
insert-All s k e ((j, x) ∷ c) n (m, h) = elim (Bool-cases (same j k)) [
  | inl f ↦ rw f (n, h)
  | inr f ↦ rw f (m, insert-All s k e c n h)
]

insert-IsDistinct : (k : Bytes) (e : Entry) (c : Cache) → IsDistinct c → IsDistinct (insert k e c)
unfolding insert
insert-IsDistinct k e [] h = (tt, tt)
insert-IsDistinct k e ((j, x) ∷ c) (n, h) = elim (Bool-cases (same j k)) [
  | inl f ↦ rw f (subst (λ s. All (λ x. x.0 ≢ s) c) ((same_iff j k).0 f) n, h)
  | inr f ↦ rw f (
    insert-All j k e c (λ q. ground (arith, (same_iff j k).1 (sym q))) n,
    insert-IsDistinct k e c h,
  )
]

length-insert : (k : Bytes) (e : Entry) (c : Cache) → length (insert k e c) ≤ length c + 1
unfolding insert
length-insert k e [] = omega arith
length-insert k e ((j, x) ∷ c) = elim (Bool-cases (same j k)) [
  | inl f ↦ rw f (omega arith)
  | inr f ↦ rw f (omega (arith, length-insert k e c))
]

module _ (decode : Decoder) (net : Network) (now later : ℕ) (uri access_token : Bytes)
    (i : Identity) (c : Cache) where
  -- The cache keeps one entry a subject, grows by at most one in a call, and keeps what it holds for
  -- every other subject.
  pub fill-IsDistinct :
      (j : Bytes)
      → IsDistinct c
      → j ≢ i.subject
      → let c' = (fill decode net now later uri access_token i c).cache in
        IsDistinct c' × (length c' ≤ length c + 1) × (lookup j c' ≡ lookup j c)
  fill-IsDistinct j d n = by_outcome (fill-Outcome decode net now later uri access_token i c)
    where
      other : (a : Answer) → lookup j (store i.subject a later c) ≡ lookup j c
      other a = ground (arith, lookup-store i.subject j a later c, same_iff i.subject j)

      stored :
          (a : Answer)
          → IsDistinct (store i.subject a later c)
            × (length (store i.subject a later c) ≤ length c + 1)
            × (lookup j (store i.subject a later c) ≡ lookup j c)
      stored a = (
        unfold store in insert-IsDistinct i.subject _ c d,
        unfold store in length-insert i.subject _ c,
        other a,
      )

      by_outcome :
          {f : Filled}
          → Outcome decode net now later uri access_token i c f
          → IsDistinct f.cache × (length f.cache ≤ length c + 1) × (lookup j f.cache ≡ lookup j c)
      by_outcome (kept e q) = rw q (d, omega arith, refl)
      by_outcome (cached x _ _ _ q _) = rw q (d, omega arith, refl)
      by_outcome (asked a _ _ q) = rw q (stored a)

-- Two callers with one subject, which may be the empty one of tokens without a subject: within an hour
-- of the answer that the first one's token got, the second is shown the first one's name and email,
-- whatever its own token and whatever the endpoint would say to it; the endpoint is not asked.
pub fill-fill :
    (decode : Decoder) (net net' : Network) (now later now' later' : ℕ)
    (uri access_token access_token' : Bytes) (i j : Identity) (a : Answer) (ws : List Warning)
    (c : Cache)
    → cached_answer c i.subject now ≡ none
    → ask decode net uri access_token i.subject ≡ (some a, ws)
    → j.subject ≡ i.subject
    → now' < later + userinfo_ttl
    → let first = fill decode net now later uri access_token i c in
      (first.filled ≡ shown i a.name a.email)
      × (fill decode net' now' later' uri access_token' j first.cache
          ≡ record { filled = shown j a.name a.email; cache = first.cache; warnings = [] })
unfolding fill
fill-fill decode net net' now later now' later' uri access_token access_token' i j a ws c miss q s
      t =
    rw (miss, q)
      (
        refl,
        rw (← s)
            (unfold fill in fill-store decode net' now' later' uri access_token' j a later c t),
      )
