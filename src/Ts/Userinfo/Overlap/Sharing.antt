-- ===== src/Ts/Userinfo/Overlap/Sharing.antt =====
-- What overlapping calls of the port leave in the identities and in the cache.
use gateway_auth.Prelude.{
  ℕ, zero, suc, ◌≡◌, refl, ap, ◌++◌, ◌⊎◌, inl, inr, true, List, [], ◌∷◌, Option, none, some, Result,
  ok, err, All, Any, All-append, Bool-cases, Option-cases, arith, if◌then◌else◌,
}
use gateway_auth.Text.{codes, same, same_iff}
use gateway_auth.Ts.Strings.{Units, or_blank}
use gateway_auth.Ts.Identity.{Identity}
use gateway_auth.Ts.Userinfo.{
  Entry, Cache, get, set, Body, Members, members, null, Response, failed, answered, Fetch, is_ok,
  Filled, fresh, is_about, use_body, use_response,
}
use gateway_auth.Ts.Userinfo.Overlap.{
  Call, awaiting, settled, System, Turn, comes, lands, begin, resume, land, turn, run, idle,
}

pub get-set :
    (s t : Units) (e : Entry) (c : Cache)
    → get (set c s e) t ≡ (if same s t then some e else get c t)
unfolding get set
get-set s t e [] = refl
get-set s t e ((u, f) ∷ c) =
    ground (arith, same_iff s t, same_iff u s, same_iff u t, get-set s t e c)

fresh_sound : (now : ℕ) (o : Option Entry) (e : Entry) → fresh now o ≡ some e → o ≡ some e
fresh_sound now none e h = cc
fresh_sound now (some f) e h = ground arith

is_about_sound : (o : Option Units) (s : Units) → is_about o s ≡ true → o ≡ some s
is_about_sound none s h = cc
is_about_sound (some t) s h = ap some ((same_iff t s).0 h)

-- `P subject name email` stands for "the endpoint says of the subject that it has this name and
-- email".
module _ (uri : Units) (P : Units → Units → Units → Type 0) where
  abbrev Answers : Response → Type 0
  Answers r =
      (status : ℕ) (m : Members) (subject : Units)
      → r ≡ answered status (ok (members m))
      → is_ok status ≡ true
      → m.sub ≡ some subject
      → P subject (or_blank m.name) (or_blank m.email)

  abbrev Tells : Turn → Type 0
  Tells (comes now access_token i) = Unit
  Tells (lands n fetch later) =
      (access_token : Units) → Answers (fetch uri (codes "Bearer " ++ access_token))

  abbrev IsRight : Identity → Result Units Identity → Type 0
  IsRight i (err e) = e ≡ codes "TypeError"
  IsRight i (ok j) =
      (j ≡ i) ⊎ ((j ≡ record i { name = j.name; email = j.email }) × P i.subject j.name j.email)

  abbrev IsSettledRight : Call → Type 0
  IsSettledRight (awaiting access_token i) = Unit
  IsSettledRight (settled i r) = IsRight i r

  abbrev Holds : Cache → Type 0
  Holds c = (subject : Units) (e : Entry) → get c subject ≡ some e → P subject e.name e.email

  pub record Inv (s : System) : Type 0 where
    pub cached : Holds s.cache
    pub right : All IsSettledRight s.calls

  -- What a call leaves.
  record IsFilledRight (i : Identity) (f : Filled) : Type 0 where
    result : IsRight i f.result
    cached : Holds f.cache

  set-Holds : (c : Cache) (s : Units) (e : Entry) → Holds c → P s e.name e.email → Holds (set c s e)
  set-Holds c s e h p t f g = elim (Bool-cases (same s t)) [
    | inl y ↦
        let same_entry : e ≡ f = ground (arith, get-set s t e c) in
        rw⁻¹ ((same_iff s t).0 y, same_entry) p
    | inr n ↦ h t f (ground (arith, get-set s t e c))
  ]

  about-IsFilledRight :
      (later : ℕ) (i : Identity) (c : Cache) (m : Members)
      → Holds c
      → (m.sub ≡ some i.subject → P i.subject (or_blank m.name) (or_blank m.email))
      → IsFilledRight i (use_body later i c (ok (members m)))
  unfolding use_body
  about-IsFilledRight later i c m h a = elim (Bool-cases (is_about m.sub i.subject)) [
    | inl y ↦
        let said = a (is_about_sound m.sub i.subject y) in
        rw y (record { result = inr (refl, said); cached = set-Holds c i.subject _ h said })
    | inr n ↦ rw n (record { result = inl refl; cached = h })
  ]

  use_body-IsFilledRight :
      (later : ℕ) (i : Identity) (c : Cache) (b : Result Units Body)
      → Holds c
      → ((m : Members)
          → b ≡ ok (members m)
          → m.sub ≡ some i.subject
          → P i.subject (or_blank m.name) (or_blank m.email))
      → IsFilledRight i (use_body later i c b)
  use_body-IsFilledRight later i c (err e) h a =
      unfold use_body in record { result = inl refl; cached = h }
  use_body-IsFilledRight later i c (ok null) h a =
      unfold use_body in record { result = refl; cached = h }
  use_body-IsFilledRight later i c (ok (members m)) h a =
      about-IsFilledRight later i c m h (a m refl)

  use_response-IsFilledRight :
      (later : ℕ) (i : Identity) (c : Cache) (r : Response)
      → Holds c
      → Answers r
      → IsFilledRight i (use_response later i c r)
  unfolding use_response
  use_response-IsFilledRight later i c (failed e) h a = record { result = inl refl; cached = h }
  use_response-IsFilledRight later i c (answered status b) h a = elim (Bool-cases (is_ok status)) [
    | inl y ↦ rw y (
        use_body-IsFilledRight later i c b h
          (λ m q t. a status m i.subject (ap (answered status) q) y t))
    | inr n ↦ rw n (record { result = inl refl; cached = h })
  ]

  resume-Inv :
      (fetch : Fetch) (later : ℕ) (s : System) (rest : List Call) (c : Call)
      → ((access_token : Units) → Answers (fetch uri (codes "Bearer " ++ access_token)))
      → Holds s.cache
      → IsSettledRight c
      → All IsSettledRight rest
      → Inv (resume uri fetch later s rest c)
  resume-Inv fetch later s rest (settled i r) a h x xs = record { cached = h; right = (x, xs) }
  resume-Inv fetch later s rest (awaiting access_token i) a h x xs =
      let f =
        use_response-IsFilledRight later i s.cache (fetch uri (codes "Bearer " ++ access_token)) h
          (a access_token) in
      record { cached = f.cached; right = (f.result, xs) }

  land-Inv :
      (n : ℕ) (fetch : Fetch) (later : ℕ) (calls : List Call) (s : System)
      → ((access_token : Units) → Answers (fetch uri (codes "Bearer " ++ access_token)))
      → Holds s.cache
      → All IsSettledRight calls
      → Inv (land uri n fetch later calls s)
  unfolding land
  land-Inv n fetch later [] s a h xs = record { cached = h; right = tt }
  land-Inv zero fetch later (c ∷ calls) s a h (x, xs) = resume-Inv fetch later s calls c a h x xs
  land-Inv (suc n) fetch later (c ∷ calls) s a h (x, xs) =
      let v = land-Inv n fetch later calls (record s { calls = calls }) a h xs in
      record { cached = v.cached; right = (x, v.right) }

  begin-IsSettledRight :
      (access_token : Units) (i : Identity) (c : Cache) (now : ℕ)
      → Holds c
      → IsSettledRight (begin uri access_token i (fresh now (get c i.subject)))
  begin-IsSettledRight access_token i c now h = elim (Option-cases (fresh now (get c i.subject))) [
    | inl q ↦ rw q tt
    | inr (e, q) ↦ rw q (inr (refl, h i.subject e (fresh_sound now (get c i.subject) e q)))
  ]

  turn-Inv : (a : Turn) (s : System) → Tells a → Inv s → Inv (turn uri a s)
  unfolding turn
  turn-Inv (comes now access_token i) s _ v = record {
    cached = v.cached;
    right =
        All-append IsSettledRight s.calls _ v.right
          (begin-IsSettledRight access_token i s.cache now v.cached, tt);
  }
  turn-Inv (lands n fetch later) s a v = land-Inv n fetch later s.calls s a v.cached v.right

  run-Inv : (turns : List Turn) (s : System) → All Tells turns → Inv s → Inv (run uri turns s)
  unfolding run
  run-Inv [] s a v = v
  run-Inv (t ∷ turns) s (a, rest) v = run-Inv turns (turn uri t s) rest (turn-Inv t s a v)

module _ (uri : Units) where
  -- In this turn the endpoint answers 200 to 299 to some token, about this subject, with this name and
  -- email, each "" where it is not told.
  abbrev SaidAt : Units → Units → Units → Turn → Type 0
  SaidAt subject name email (comes now access_token i) = ⊥
  SaidAt subject name email (lands n fetch later) =
      (access_token : Units) × (status : ℕ) × (m : Members) × (fetch uri
          (codes "Bearer " ++ access_token)
        ≡ answered status (ok (members m)))
      × (is_ok status ≡ true)
      × (m.sub ≡ some subject)
      × (or_blank m.name ≡ name)
      × (or_blank m.email ≡ email)

  abbrev pub Said : List Turn → Units → Units → Units → Type 0
  Said turns subject name email = Any (SaidAt subject name email) turns

  All-Tells :
      (P : Units → Units → Units → Type 0) (turns : List Turn)
      → ((subject name email : Units) → Said turns subject name email → P subject name email)
      → All (Tells uri P) turns
  All-Tells P [] k = tt
  All-Tells P (comes now access_token i ∷ turns) k =
      (tt, All-Tells P turns (λ s n m a. k s n m (inr a)))
  All-Tells P (lands l fetch later ∷ turns) k = (
    λ access_token status m subject q o b.
        k subject (or_blank m.name) (or_blank m.email)
          (inl (access_token, status, m, q, o, b, refl, refl)),
    All-Tells P turns (λ s n m a. k s n m (inr a)),
  )

  -- However the calls of `fill` overlap: a call that resolves leaves its identity as it was, or with
  -- another name and email alone, those that the endpoint gave about its subject; one that rejects does
  -- so with the error of reading a member of null; and the cache holds for each subject what the
  -- endpoint gave about that subject.
  pub overlap-Inv : (turns : List Turn) → Inv uri (Said turns) (run uri turns idle)
  overlap-Inv turns =
      run-Inv uri (Said turns) turns idle (All-Tells (Said turns) turns (λ s n m a. a))
        (unfold get in record { cached = λ s e h. cc; right = tt })
