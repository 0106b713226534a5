-- ===== src/Ts/Userinfo/Alike.antt =====
-- Caches and answers of the endpoint, as Go and as the port have them.
use gateway_auth.Prelude.{
  ℕ, ◌*◌, ◌-◌, ltb, test-false, ◌≡◌, ◌≢◌, refl, ◌∙◌, sym, ◌⊎◌, inl, inr, [], Option, none, some,
  Result, ok, err, Bool-cases, arith, true,
}
use gateway_auth.Text.{Bytes, same, same_iff}
use gateway_auth.Http.{Exchange, not_built, failed, answered}
use gateway_auth.Userinfo as Go
use gateway_auth.Userinfo.{lookup, fresh_only, cached_answer, ask, store, use_answer, use_cached}
use gateway_auth.Userinfo.Fill.{lookup-store}
use gateway_auth.Ts.Userinfo.Overlap.Sharing.{get-set}
use gateway_auth.Ts.Strings.{Units, or_blank}
use gateway_auth.Ts.Identity.{Identity}
use gateway_auth.Ts.Claims.Conforms.{SameIdentity}
use gateway_auth.Ts.Userinfo.{
  Cache, Entry, get, set, Body, Members, members, null, Response, Fetch, Filled, is_ok, fresh,
  is_about, use_body, use_response, use_entry, fill,
}
use gateway_auth.Ts.Userinfo as Port

-- Nanoseconds in a millisecond.
abbrev pub nanos : ℕ
nanos = 1000000

-- An entry of Go's cache and one of the port's, whose times are in nanoseconds and in milliseconds.
unfoldable pub SameEntry : Option Go.Entry → Option Entry → Type 0
SameEntry none none = Unit
SameEntry (some e) (some f) =
    (e.name ≡ f.name) × (e.email ≡ f.email) × (e.fetched_at ≡ nanos * f.fetched_at)
SameEntry _ _ = ⊥

abbrev pub SameCache : Go.Cache → Cache → Type 0
SameCache c d = (subject : Bytes) → SameEntry (lookup subject c) (get d subject)

-- A body as Go and as the port decode it: neither can, or it has the same members for both, or it is
-- null, which encoding/json leaves a struct of empty strings at.
unfoldable pub SameAnswer : Result Bytes Go.Answer → Result Units Body → Type 0
SameAnswer (err e) (err u) = Unit
SameAnswer (ok a) (ok (members m)) =
    (a.sub ≡ or_blank m.sub) × (a.name ≡ or_blank m.name) × (a.email ≡ or_blank m.email)
SameAnswer (ok a) (ok null) = (a.sub ≡ []) × (a.name ≡ []) × (a.email ≡ [])
SameAnswer _ _ = ⊥

-- What the endpoint did, as Go and as the port see it: it was not reached, or it answered with one
-- status and one body.
unfoldable pub SameExchange : Go.Decoder → Exchange → Response → Type 0
unfolding SameAnswer
SameExchange decode (not_built e) (Port.failed u) = Unit
SameExchange decode (failed e) (Port.failed u) = Unit
SameExchange decode (answered status body) (Port.answered code reply) =
    (status ≡ code) × SameAnswer (decode body) reply
SameExchange _ _ _ = ⊥

-- The responses that the two ports take differently: a status from 201 to 299, whose body the port alone
-- takes, and a body that is null, at which the port alone fails.
unfoldable pub IsApart : Response → Type 0
IsApart (Port.failed u) = ⊥
IsApart (Port.answered code reply) = (is_ok code ≡ true) × ((code ≢ 200) ⊎ (reply ≡ ok null))

-- What the two calls leave: the same identity, no error, and caches that are alike.
pub record SameFilled (f : Go.Filled) (g : Filled) : Type 0 where
  pub left : Identity
  pub resolves : g.result ≡ ok left
  pub identity : SameIdentity f.filled left
  pub cache : SameCache f.cache g.cache

same_age :
    (now s t : ℕ)
    → s ≡ nanos * t
    → ltb (nanos * now - s) Go.userinfo_ttl ≡ ltb (now - t) Port.userinfo_ttl
unfolding Go.userinfo_ttl
same_age now s t e = ground arith

pub fresh-SameEntry :
    (now : ℕ) (o : Option Go.Entry) (p : Option Entry)
    → SameEntry o p
    → SameEntry (fresh_only (nanos * now) o) (fresh now p)
unfolding SameEntry
fresh-SameEntry now none none h = tt
fresh-SameEntry now none (some f) h = absurd h
fresh-SameEntry now (some e) none h = absurd h
fresh-SameEntry now (some e) (some f) (n, m, t) =
    elim (Bool-cases (ltb (now - f.fetched_at) Port.userinfo_ttl)) [
      | inl y ↦ rw (same_age now e.fetched_at f.fetched_at t, y) (n, m, t)
      | inr y ↦ rw (same_age now e.fetched_at f.fetched_at t, y) tt
    ]

pub is_about-same :
    (a : Go.Answer) (o : Option Units) (subject : Bytes)
    → a.sub ≡ or_blank o
    → subject ≢ []
    → is_about o subject ≡ same a.sub subject
is_about-same a none subject e ne =
    sym (test-false _ (same_iff a.sub subject) (λ q. ne (sym q ∙ e)))
is_about-same a (some s) subject e ne = rw e refl

-- The caches after the write of one answer.
pub store-SameCache :
    (c : Go.Cache) (d : Cache) (s : Bytes) (a : Go.Answer) (e : Entry)
    → SameCache c d
    → a.name ≡ e.name
    → a.email ≡ e.email
    → SameCache (store s a (nanos * e.fetched_at) c) (set d s e)
store-SameCache c d s a e h n m t =
    rw (lookup-store s t a (nanos * e.fetched_at) c, get-set s t e d)
      (elim (Bool-cases (same s t)) [
        | inl y ↦ rw y (unfold SameEntry in (n, m, refl))
        | inr y ↦ rw y (h t)
      ])
