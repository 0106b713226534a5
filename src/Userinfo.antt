-- ===== src/Userinfo.antt =====
-- userinfo.go: display claims from the provider's userinfo endpoint, cached per subject.
pub mod Fill
pub mod Sharing
pub mod Steps
pub mod Storage
pub mod Directory
pub mod Tests
use gateway_auth.Prelude.{
  ℕ, ◌-◌, ◌*◌, ◌++◌, Bool, true, false, List, [], ◌∷◌, Option, none, some, Result, ok, err,
  if◌then◌else◌, ◌==◌, ltb,
}
use gateway_auth.Text.{Bytes, codes, same}
use gateway_auth.Identity.{Identity}
use gateway_auth.Http.{Request, Body, Exchange, not_built, failed, answered, Network, status_ok}

-- `userinfoTTL`, in nanoseconds.
unfoldable pub userinfo_ttl : ℕ
userinfo_ttl = 3600 * 1000000000

-- `userinfoEntry`; a time is its distance in nanoseconds from a fixed start.
pub record Entry : Type 0 where
  pub name : Bytes
  pub email : Bytes
  pub fetched_at : ℕ

abbrev pub Cache : Type 0
Cache = List (Bytes × Entry)

-- `cache[subject]`.
unfoldable pub lookup : Bytes → Cache → Option Entry
lookup subject [] = none
lookup subject ((s, e) ∷ cache) = if same s subject then some e else lookup subject cache

-- `cache[subject] = entry`.
unfoldable pub insert : Bytes → Entry → Cache → Cache
insert subject entry [] = (subject, entry) ∷ []
insert subject entry ((s, e) ∷ cache) =
    if same s subject then (subject, entry) ∷ cache else (s, e) ∷ insert subject entry cache

-- The document that the endpoint returns.
pub record Answer : Type 0 where
  pub sub : Bytes
  pub name : Bytes
  pub email : Bytes

-- `json.NewDecoder(resp.Body).Decode(&body)`.
abbrev pub Decoder : Type 0
Decoder = Body → Result Bytes Answer

-- The warnings of `fill`.
pub data Warning : Type 0 where
  request_failed : Bytes → Warning
  refused : ℕ → Warning
  undecodable : Bytes → Warning

-- `u.now().Sub(cached.fetchedAt) < userinfoTTL`. Where the clock went back, Go's difference is
-- negative and this one 0: both are below the bound.
abbrev pub is_fresh : ℕ → Entry → Bool
is_fresh now e = ltb (now - e.fetched_at) userinfo_ttl

abbrev pub fresh_only : ℕ → Option Entry → Option Entry
fresh_only now none = none
fresh_only now (some e) = if is_fresh now e then some e else none

-- The first critical section, and the test behind it.
unfoldable pub cached_answer : Cache → Bytes → ℕ → Option Entry
unfolding lookup userinfo_ttl
cached_answer cache subject now = fresh_only now (lookup subject cache)

-- An answer is used only if it is about the subject.
abbrev pub about : Bytes → Result Bytes Answer → Option Answer × List Warning
about subject (err e) = (none, undecodable e ∷ [])
about subject (ok answer) = (if same answer.sub subject then some answer else none, [])

-- `fill` from what `client.Do` returns to the test of the subject.
unfoldable pub receive_answer : Decoder → Bytes → Exchange → Option Answer × List Warning
receive_answer decode subject (not_built e) = (none, [])
receive_answer decode subject (failed e) = (none, request_failed e ∷ [])
receive_answer decode subject (answered status body) =
    if status == status_ok then about subject (decode body) else (none, refused status ∷ [])

-- The request to the endpoint: an answer about the subject, or none; and the warning logged.
unfoldable pub ask : Decoder → Network → Bytes → Bytes → Bytes → Option Answer × List Warning
unfolding receive_answer
ask decode net uri access_token subject =
    receive_answer decode subject
      (net (record { url = uri; authorization = some (codes "Bearer " ++ access_token) }))

-- The second critical section.
unfoldable pub store : Bytes → Answer → ℕ → Cache → Cache
unfolding insert
store subject answer now cache =
    insert subject (record { name = answer.name; email = answer.email; fetched_at = now }) cache

-- What a call of `fill` leaves behind.
pub record Filled : Type 0 where
  pub filled : Identity
  pub cache : Cache
  pub warnings : List Warning

-- The end of `fill`: `later` is the clock at the write.
abbrev pub use_answer : ℕ → Identity → Cache → Option Answer × List Warning → Filled
use_answer later i cache (none, warnings) = record {
  filled = i;
  cache = cache;
  warnings = warnings;
}
use_answer later i cache (some a, warnings) = record {
  filled = record i { name = a.name; email = a.email };
  cache = store i.subject a later cache;
  warnings = warnings;
}

-- `fill` behind the look into the cache.
abbrev pub use_cached : Identity → Cache → Filled → Option Entry → Filled
use_cached i cache otherwise (some e) = record {
  filled = record i { name = e.name; email = e.email };
  cache = cache;
  warnings = [];
}
use_cached i cache otherwise none = otherwise

-- `fill`: `now` is the clock at the test, `later` at the write.
unfoldable pub fill : Decoder → Network → ℕ → ℕ → Bytes → Bytes → Identity → Cache → Filled
fill decode net now later uri access_token i cache =
    use_cached i cache (use_answer later i cache (ask decode net uri access_token i.subject))
      (cached_answer cache i.subject now)
