-- ===== src/KeySet/Timing.antt =====
-- How old the keys may be: `refreshLoop` with its ticker and its timeouts.
use gateway_auth.Prelude.{
  ℕ, zero, suc, ◌+◌, ◌*◌, ◌≤◌, ◌<◌, ◌≡◌, refl, ap, ◌∙◌, inl, inr, some, ok, arith, leb, Bool-cases,
}
use gateway_auth.Http.{Network}
use gateway_auth.KeySet.Refresh.{refresh-url, refresh-fetched}
use gateway_auth.KeySet.{Jwk, KeySet, fetch_set, refresh}

-- Nanoseconds.
abbrev pub second : ℕ
second = 1000 * 1000 * 1000

-- `keySetRefresh`.
abbrev pub key_set_refresh : ℕ
key_set_refresh = 15 * 60 * second

-- `keySetFetchTimeout`.
abbrev pub key_set_fetch_timeout : ℕ
key_set_fetch_timeout = 15 * second

-- One run of the loop, whose context does not end: when `NewTicker` was called, when the loop received
-- its n-th tick, how long the n-th refresh took, and what the network answered it; from n = 1 on.
pub record Timeline : Type 0 where
  pub start : ℕ
  pub tick_at : ℕ → ℕ
  pub takes : ℕ → ℕ
  pub net : ℕ → Network

-- When the ticker is due for the n-th time.
abbrev pub due : Timeline → ℕ → ℕ
due t n = t.start + n * key_set_refresh

-- When the loop is at its `select` again, after n rounds.
abbrev pub ready : Timeline → ℕ → ℕ
ready t zero = t.start
ready t (suc n) = t.tick_at (suc n) + t.takes (suc n)

-- What is relied on. A ticker delivers a tick when it is due, to a receiver that is ready by then; a
-- request whose client and whose context have a timeout is over by it.
pub record IsClocked (t : Timeline) : Type 0 where
  pub delivered : (n : ℕ) → ready t n ≤ due t (suc n) → t.tick_at (suc n) ≡ due t (suc n)
  pub in_time : (n : ℕ) → t.takes n ≤ key_set_fetch_timeout

-- No tick is late: a round is over long before the next is due.
tick_at-due : (t : Timeline) → IsClocked t → (n : ℕ) → t.tick_at (suc n) ≡ due t (suc n)
tick_at-due t c zero = c.delivered 0 (omega arith)
tick_at-due t c (suc n) = c.delivered (suc n) (omega (arith, tick_at-due t c n, c.in_time (suc n)))

module _ {K : Type 0} (jwk : Jwk K) (t : Timeline) (ks : KeySet K) where
  -- The key set after n rounds of the loop.
  pub held : ℕ → KeySet K
  held zero = ks
  held (suc n) = (refresh jwk (held n) (t.net (suc n))).1

  -- At this time n rounds are over, and no more.
  abbrev pub HasDone : ℕ → ℕ → Type 0
  HasDone time n = (ready t n ≤ time) × (time < ready t (suc n))

  held-url : (n : ℕ) → (held n).url ≡ ks.url
  unfolding held
  held-url zero = refl
  held-url (suc n) = refresh-url jwk (held n) (t.net (suc n)) ∙ held-url n

  held-fetched :
      (n : ℕ) (set : K)
      → fetch_set jwk (t.net (suc n)) ks.url ≡ ok set
      → (held (suc n)).keys ≡ some set
  unfolding held
  held-fetched n set e =
      refresh-fetched jwk (held n) (t.net (suc n)) set
        (ap (fetch_set jwk (t.net (suc n))) (held-url n) ∙ e)

  -- At every time from the start on, some number of rounds is over.
  HasDone-total : (k time : ℕ) → t.start ≤ time → time < ready t (suc k) → (n : ℕ) × HasDone time n
  HasDone-total zero time s u = (0, (s, u))
  HasDone-total (suc k) time s u = elim (Bool-cases (leb (ready t (suc k)) time)) [
    | inl e ↦ (suc k, (ground arith, u))
    | inr e ↦ HasDone-total k time s (ground arith)
  ]

  -- From some time on the URL delivers one set to every refresh: the provider has rotated its keys, or
  -- has withdrawn one. At any time from fifteen minutes and fifteen seconds later on, so many rounds
  -- of the loop are over that the keys are that set, and no older one.
  pub held_bound :
      (set : K) (since time : ℕ)
      → IsClocked t
      → t.start ≤ since
      → ((m : ℕ) → since ≤ t.tick_at (suc m) → fetch_set jwk (t.net (suc m)) ks.url ≡ ok set)
      → since + key_set_refresh + key_set_fetch_timeout ≤ time
      → ((n : ℕ) × HasDone time n) × ((n : ℕ) → HasDone time n → (held n).keys ≡ some set)
  held_bound set since time c s delivers late = (
    HasDone-total time time (omega arith) (omega (arith, tick_at-due t c time)),
    λ n (over, under). by_rounds n under,
  )
    where
      by_rounds : (m : ℕ) → time < ready t (suc m) → (held m).keys ≡ some set
      by_rounds zero u = absurd (omega (arith, tick_at-due t c 0, c.in_time 1))
      by_rounds (suc m) u = held-fetched m set (
          delivers m
            (omega (arith, tick_at-due t c m, tick_at-due t c (suc m), c.in_time (suc (suc m)))))
