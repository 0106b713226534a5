-- ===== src/Userinfo/Fill.antt =====
-- One call of `fill`: where the display claims come from, and what is cached.
use gateway_auth.Prelude.{
  ℕ, ◌-◌, ◌≤◌, ◌<◌, ◌≡◌, refl, ap, sym, ◌⊎◌, inl, inr, true, List, [], ◌∷◌, ◌++◌, Option, none,
  some, Result, ok, err, arith, Bool-cases, if◌then◌else◌, ◌==◌, ◌+◌,
}
use gateway_auth.Text.{Bytes, codes, same, same_iff}
use gateway_auth.Identity.{Identity}
use gateway_auth.Http.{Body, Exchange, not_built, failed, answered, Network, status_ok}
use gateway_auth.Userinfo.{
  userinfo_ttl, Entry, Cache, lookup, insert, Answer, Decoder, Warning, is_fresh, fresh_only,
  cached_answer, about, receive_answer, ask, store, Filled, use_answer, use_cached, fill,
}

-- The laws of the cache as a map.
pub lookup-insert :
    (k j : Bytes) (e : Entry) (c : Cache)
    → lookup j (insert k e c) ≡ (if same k j then some e else lookup j c)
unfolding lookup insert
lookup-insert k j e [] = refl
lookup-insert k j e ((i, w) ∷ c) =
    ground (arith, same_iff k j, same_iff i k, same_iff i j, lookup-insert k j e c)

pub lookup-store :
    (s j : Bytes) (a : Answer) (now : ℕ) (c : Cache)
    → lookup j (store s a now c) ≡ (
        if same s j
        then some (record { name = a.name; email = a.email; fetched_at = now })
        else lookup j c)
unfolding store
lookup-store s j a now c = lookup-insert s j _ c

pub fresh_only_sound :
    (now : ℕ) (o : Option Entry) (e : Entry)
    → fresh_only now o ≡ some e
    → (o ≡ some e) × (is_fresh now e ≡ true)
fresh_only_sound now none e h = cc
fresh_only_sound now (some x) e h = elim (Bool-cases (is_fresh now x)) [
  | inl f ↦ let same_entry : x ≡ e = ground arith in (ap some same_entry, rw (← same_entry) f)
  | inr f ↦ ground arith
]

-- The endpoint, asked with the caller's token, answered with status 200 and a document about the
-- subject.
abbrev pub Answers : Decoder → Network → Bytes → Bytes → Bytes → Answer → Type 0
Answers decode net uri access_token subject a =
    (body : Body) × (net
        (record { url = uri; authorization = some (codes "Bearer " ++ access_token) })
      ≡ answered status_ok body)
    × (decode body ≡ ok a)
    × (a.sub ≡ subject)

about_sound :
    (subject : Bytes) (r : Result Bytes Answer) (a : Answer)
    → (about subject r).0 ≡ some a
    → (r ≡ ok a) × (a.sub ≡ subject)
about_sound subject (err e) a h = cc
about_sound subject (ok b) a h = elim (Bool-cases (same b.sub subject)) [
  | inl f ↦
      let same_answer : b ≡ a = ground arith in
      (ap ok same_answer, rw (← same_answer) ((same_iff b.sub subject).0 f))
  | inr f ↦ ground arith
]

receive_answer_sound :
    (decode : Decoder) (subject : Bytes) (x : Exchange) (a : Answer)
    → (receive_answer decode subject x).0 ≡ some a
    → (body : Body) × (x ≡ answered status_ok body) × (decode body ≡ ok a) × (a.sub ≡ subject)
unfolding receive_answer
receive_answer_sound decode subject (not_built e) a h = cc
receive_answer_sound decode subject (failed e) a h = cc
receive_answer_sound decode subject (answered status body) a h =
    elim (Bool-cases (status == status_ok)) [
      | inl e ↦
          let is_ok : status ≡ status_ok = ground arith in
          let (decoded, matches) = about_sound subject (decode body) a (ground arith) in
          (body, ap (λ s. answered s body) is_ok, decoded, matches)
      | inr e ↦ ground arith
    ]

pub ask_sound :
    (decode : Decoder) (net : Network) (uri access_token subject : Bytes) (a : Answer)
    → (ask decode net uri access_token subject).0 ≡ some a
    → Answers decode net uri access_token subject a
unfolding ask
ask_sound decode net uri access_token subject a h = receive_answer_sound decode subject _ a h

-- The identity with the display claims of an entry or of an answer.
abbrev pub shown : Identity → Bytes → Bytes → Identity
shown i n m = record i { name = n; email = m }

module _ (decode : Decoder) (net : Network) (now later : ℕ) (uri access_token : Bytes)
    (i : Identity) (c : Cache) where
  -- The three outcomes of a call.
  pub data Outcome (f : Filled) : Type 0 where
    kept : f.filled ≡ i → f.cache ≡ c → Outcome f
    cached :
        (e : Entry)
        → lookup i.subject c ≡ some e
        → now - e.fetched_at < userinfo_ttl
        → f.filled ≡ shown i e.name e.email
        → f.cache ≡ c
        → f.warnings ≡ []
        → Outcome f
    asked :
        (a : Answer)
        → Answers decode net uri access_token i.subject a
        → f.filled ≡ shown i a.name a.email
        → f.cache ≡ store i.subject a later c
        → Outcome f

  use_answer-Outcome :
      (r : Option Answer × List Warning)
      → r ≡ ask decode net uri access_token i.subject
      → Outcome (use_answer later i c r)
  use_answer-Outcome (none, ws) e = kept refl refl
  use_answer-Outcome (some a, ws) e =
      asked a (ask_sound decode net uri access_token i.subject a (ap (λ r. r.0) (sym e))) refl refl

  use_cached-Outcome :
      (o : Option Entry) (f : Filled)
      → o ≡ cached_answer c i.subject now
      → Outcome f
      → Outcome (use_cached i c f o)
  unfolding cached_answer
  use_cached-Outcome none f e h = h
  use_cached-Outcome (some x) f e h =
      let (found, fresh) = fresh_only_sound now (lookup i.subject c) x (sym e) in
      cached x found (ground arith) refl refl refl

  -- A call of `fill` leaves identity and cache alone, or shows the name and email of an entry for the
  -- subject that is younger than an hour, or those that the endpoint gave, with status 200 and the
  -- same subject, to the caller's own token; only in that case does it write to the cache.
  pub fill-Outcome : Outcome (fill decode net now later uri access_token i c)
  unfolding fill
  fill-Outcome =
      use_cached-Outcome (cached_answer c i.subject now) _ refl
        (use_answer-Outcome (ask decode net uri access_token i.subject) refl)

-- An entry that is younger than an hour is used whatever the network would answer; an older one is
-- as good as none.
pub cached_answer_cases :
    (c : Cache) (subject : Bytes) (now : ℕ) (e : Entry)
    → lookup subject c ≡ some e
    → ((now - e.fetched_at < userinfo_ttl) × (cached_answer c subject now ≡ some e))
      ⊎ ((userinfo_ttl ≤ now - e.fetched_at) × (cached_answer c subject now ≡ none))
unfolding cached_answer
cached_answer_cases c subject now e h = elim (Bool-cases (is_fresh now e)) [
  | inl f ↦ inl (ground arith, rw (h, f))
  | inr f ↦ inr (ground arith, rw (h, f))
]

cached_answer-store :
    (subject : Bytes) (a : Answer) (written now : ℕ) (c : Cache)
    → now < written + userinfo_ttl
    → cached_answer (store subject a written c) subject now
      ≡ some (record { name = a.name; email = a.email; fetched_at = written })
cached_answer-store subject a written now c h =
    elim (cached_answer_cases (store subject a written c) subject now _ found) [
      | inl (_, e) ↦ e
      | inr (old, _) ↦ absurd (unfold userinfo_ttl in omega arith)
    ]
  where
    found :
        lookup subject (store subject a written c)
        ≡ some (record { name = a.name; email = a.email; fetched_at = written })
    found = rw (lookup-store subject subject a written c, (same_iff subject subject).1 refl) refl

-- Within an hour of a write, every call for that subject is answered by what was written: the
-- endpoint is not asked, nothing is logged and the cache stays.
pub fill-store :
    (decode : Decoder) (net : Network) (now later : ℕ) (uri access_token : Bytes) (i : Identity)
    (a : Answer) (written : ℕ) (c : Cache)
    → now < written + userinfo_ttl
    → fill decode net now later uri access_token i (store i.subject a written c) ≡ record {
      filled = shown i a.name a.email;
      cache = store i.subject a written c;
      warnings = [];
    }
unfolding fill
fill-store decode net now later uri access_token i a written c h =
    rw (cached_answer-store i.subject a written now c h) refl
