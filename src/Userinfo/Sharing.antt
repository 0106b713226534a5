-- ===== src/Userinfo/Sharing.antt =====
-- Calls of `fill` that run at the same time. The mutex is released between the look into the cache
-- and the write to it, so any other call may come between; each step here is one critical section or
-- one exchange with the endpoint, and `Step` allows every interleaving of them.
use gateway_auth.Prelude.{
  ℕ, ◌≡◌, refl, ◌∙◌, ◌⊎◌, inl, inr, List, [], ◌∷◌, ◌++◌, Option, none, some, arith, All, Any,
  Bool-cases,
}
use gateway_auth.Text.{Bytes, same, same_iff}
use gateway_auth.Identity.{Identity}
use gateway_auth.Http.{Network}
use gateway_auth.Userinfo.{Entry, Cache, lookup, Answer, Decoder, cached_answer, ask, store}
use gateway_auth.Userinfo.Fill.{lookup-store, ask_sound, shown, fresh_only_sound}

-- The cache; the calls between their two critical sections, with the token of each; for each call
-- that has ended the identity that it was given and the one that it left; the documents that the
-- endpoint gave, each about the subject that it was asked for.
pub record System : Type 0 where
  pub cache : Cache
  pub in_flight : List (Identity × Bytes)
  pub ended : List (Identity × Identity)
  pub answers : List Answer

pub data Step (decode : Decoder) (uri : Bytes) (s t : System) : Type 0 where
  hit :
      (i : Identity) (now : ℕ) (e : Entry)
      → cached_answer s.cache i.subject now ≡ some e
      → t ≡ record s { ended = (i, shown i e.name e.email) ∷ s.ended }
      → Step decode uri s t
  miss :
      (i : Identity) (access_token : Bytes) (now : ℕ)
      → cached_answer s.cache i.subject now ≡ none
      → t ≡ record s { in_flight = (i, access_token) ∷ s.in_flight }
      → Step decode uri s t
  lands :
      (before after : List (Identity × Bytes)) (i : Identity) (access_token : Bytes) (net : Network)
      (later : ℕ) (a : Answer)
      → s.in_flight ≡ before ++ (i, access_token) ∷ after
      → (ask decode net uri access_token i.subject).0 ≡ some a
      → t ≡ record {
        cache = store i.subject a later s.cache;
        in_flight = before ++ after;
        ended = (i, shown i a.name a.email) ∷ s.ended;
        answers = a ∷ s.answers;
      }
      → Step decode uri s t
  fails :
      (before after : List (Identity × Bytes)) (i : Identity) (access_token : Bytes) (net : Network)
      → s.in_flight ≡ before ++ (i, access_token) ∷ after
      → (ask decode net uri access_token i.subject).0 ≡ none
      → t ≡ record s { in_flight = before ++ after; ended = (i, i) ∷ s.ended }
      → Step decode uri s t

pub data Reach (decode : Decoder) (uri : Bytes) (s : System) : System → Type 0 where
  here : Reach decode uri s s
  next : {t u : System} → Reach decode uri s t → Step decode uri t u → Reach decode uri s u

-- The endpoint gave this name and email about this subject.
abbrev pub Said : List Answer → Bytes → Bytes → Bytes → Type 0
Said answers subject n m = Any (λ a. (a.sub ≡ subject) × (a.name ≡ n) × (a.email ≡ m)) answers

-- The call left the identity alone, or changed only its name and email, to what the endpoint gave
-- about its subject.
abbrev pub IsRight : List Answer → Identity × Identity → Type 0
IsRight answers (i, j) =
    (j ≡ i) ⊎ ((j ≡ shown i j.name j.email) × Said answers i.subject j.name j.email)

pub record Inv (s : System) : Type 0 where
  pub cached :
      (subject : Bytes) (e : Entry)
      → lookup subject s.cache ≡ some e
      → Said s.answers subject e.name e.email
  pub right : All (IsRight s.answers) s.ended

abbrev pub idle : System
idle = record { cache = []; in_flight = []; ended = []; answers = [] }

idle-Inv : Inv idle
unfolding lookup
idle-Inv = record { cached = λ s e h. cc; right = tt }

IsRight-cons :
    (a : Answer) (log : List Answer) (rs : List (Identity × Identity))
    → All (IsRight log) rs
    → All (IsRight (a ∷ log)) rs
IsRight-cons a log [] h = tt
IsRight-cons a log (r ∷ rs) (inl e, hs) = (inl e, IsRight-cons a log rs hs)
IsRight-cons a log (r ∷ rs) (inr (e, s), hs) = (inr (e, inr s), IsRight-cons a log rs hs)

cached_answer-lookup :
    (c : Cache) (subject : Bytes) (now : ℕ) (e : Entry)
    → cached_answer c subject now ≡ some e
    → lookup subject c ≡ some e
unfolding cached_answer
cached_answer-lookup c subject now e h = (fresh_only_sound now (lookup subject c) e h).0

store-Said :
    (c : Cache) (log : List Answer) (subject : Bytes) (a : Answer) (now : ℕ)
    → a.sub ≡ subject
    → ((s : Bytes) (e : Entry) → lookup s c ≡ some e → Said log s e.name e.email)
    → (s : Bytes) (e : Entry) → lookup s (store subject a now c) ≡ some e
    → Said (a ∷ log) s e.name e.email
store-Said c log subject a now m old s e h = elim (Bool-cases (same subject s)) [
  | inl f ↦
      let named : subject ≡ s = (same_iff subject s).0 f in
      let made : ◌≡◌ {A = Option Entry}
          (some (record { name = a.name; email = a.email; fetched_at = now })) (some e) =
        ground (arith, lookup-store subject s a now c) in
      inl (m ∙ named, ground arith, ground arith)
  | inr f ↦ inr (old s e (ground (arith, lookup-store subject s a now c)))
]

module _ (decode : Decoder) (uri : Bytes) where
  Step-Inv : (s t : System) → Step decode uri s t → Inv s → Inv t
  Step-Inv s t (hit i now e h q) v = rw q (record {
    cached = v.cached;
    right = (
      inr (refl, v.cached i.subject e (cached_answer-lookup s.cache i.subject now e h)),
      v.right,
    );
  })
  Step-Inv s t (miss i access_token now h q) v =
      rw q (record { cached = v.cached; right = v.right })
  Step-Inv s t (lands before after i access_token net later a w h q) v =
      let (_, _, _, m) = ask_sound decode net uri access_token i.subject a h in
      rw q (record {
        cached = store-Said s.cache s.answers i.subject a later m v.cached;
        right = (inr (refl, inl (m, refl, refl)), IsRight-cons a s.answers s.ended v.right);
      })
  Step-Inv s t (fails before after i access_token net w h q) v =
      rw q (record { cached = v.cached; right = (inl refl, v.right) })

  Reach-Inv : {s t : System} → Inv s → Reach decode uri s t → Inv t
  Reach-Inv v here = v
  Reach-Inv v (next {t} {u} r st) = Step-Inv t u st (Reach-Inv v r)

  -- However calls overlap, none leaves another subject's name or email in an identity, and none changes
  -- its subject, roles, token or claims; and the cache holds for each subject what the endpoint gave
  -- about that subject.
  pub sharing-Inv : {t : System} → Reach decode uri idle t → Inv t
  sharing-Inv r = Reach-Inv idle-Inv r
