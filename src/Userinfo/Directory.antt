-- ===== src/Userinfo/Directory.antt =====
-- The cache as what it is to its users, a directory: what is known of each subject, without the order
-- in which it was learned.
use mathlib.Core.Quot
use mathlib.Core.Quot.{Quot}
use gateway_auth.Prelude.{
  ℕ, ◌≡◌, ◌≢◌, refl, ◌∙◌, sym, ◌⊎◌, inl, inr, List, Option, none, some, Bool-cases, arith,
}
use gateway_auth.Text.{Bytes, same, same_iff}
use gateway_auth.Identity.{Identity}
use gateway_auth.Http.{Network}
use gateway_auth.Userinfo.{
  Entry, Cache, lookup, Answer, Decoder, Warning, cached_answer, fresh_only, ask, store, use_answer,
  use_cached, Filled, fill,
}
use gateway_auth.Userinfo.Fill.{lookup-store}

-- Two caches answer alike for every subject.
abbrev pub SameAnswers : Cache → Cache → Type 0
SameAnswers c d = (j : Bytes) → lookup j c ≡ lookup j d

abbrev pub Directory : Type 0
Directory = Quot SameAnswers

abbrev pub directory : Cache → Directory
directory c = Quot.mk c

-- What one caller gets, and what is known of its subject behind it.
abbrev pub Alike : Bytes → Filled → Filled → Type 0
Alike subject f g =
    (f.filled ≡ g.filled)
    × (f.warnings ≡ g.warnings)
    × (lookup subject f.cache ≡ lookup subject g.cache)

subject_cases : (j s : Bytes) → (j ≡ s) ⊎ (j ≢ s)
subject_cases j s = elim (Bool-cases (same j s)) [
  | inl e ↦ inl ((same_iff j s).0 e)
  | inr e ↦ inr (λ q. ground (arith, (same_iff j s).1 q))
]

lookup-store_self :
    (s : Bytes) (a : Answer) (now : ℕ) (c d : Cache)
    → lookup s (store s a now c) ≡ lookup s (store s a now d)
lookup-store_self s a now c d =
    ground (arith, lookup-store s s a now c, lookup-store s s a now d, same_iff s s)

module _ (i : Identity) (later : ℕ) where
  use_cached-Alike :
      (c d : Cache) (o : Option Entry) (r : Option Answer × List Warning)
      → lookup i.subject c ≡ lookup i.subject d
      → Alike i.subject
          (use_cached i c (use_answer later i c r) o)
          (use_cached i d (use_answer later i d r) o)
  use_cached-Alike c d (some e) r q = (refl, refl, q)
  use_cached-Alike c d none (none, ws) q = (refl, refl, q)
  use_cached-Alike c d none (some a, ws) q = (refl, refl, lookup-store_self i.subject a later c d)

  use_cached-lookup :
      (j : Bytes) (c : Cache) (o : Option Entry) (r : Option Answer × List Warning)
      → j ≢ i.subject
      → lookup j (use_cached i c (use_answer later i c r) o).cache ≡ lookup j c
  use_cached-lookup j c (some e) r n = refl
  use_cached-lookup j c none (none, ws) n = refl
  use_cached-lookup j c none (some a, ws) n =
      ground (arith, lookup-store i.subject j a later c, same_iff i.subject j)

-- What a call meets: the network, the clock at the test and at the write, and the caller's token.
pub record Visit : Type 0 where
  pub net : Network
  pub now : ℕ
  pub later : ℕ
  pub access_token : Bytes
  pub caller : Identity

module _ (decode : Decoder) (uri : Bytes) where
  abbrev pub visit : Visit → Cache → Filled
  visit x c = fill decode x.net x.now x.later uri x.access_token x.caller c

  -- A call reads nothing but the entry of its own subject.
  visit-Alike :
      (x : Visit) (c d : Cache)
      → lookup x.caller.subject c ≡ lookup x.caller.subject d
      → Alike x.caller.subject (visit x c) (visit x d)
  unfolding fill cached_answer
  visit-Alike x c d q = rw q (
      use_cached-Alike x.caller x.later c d (fresh_only x.now (lookup x.caller.subject d))
        (ask decode x.net uri x.access_token x.caller.subject) q)

  -- And writes nothing else.
  visit-lookup :
      (x : Visit) (j : Bytes) (c : Cache)
      → j ≢ x.caller.subject
      → lookup j (visit x c).cache ≡ lookup j c
  unfolding fill
  visit-lookup x j c n =
      use_cached-lookup x.caller x.later j c (cached_answer c x.caller.subject x.now)
        (ask decode x.net uri x.access_token x.caller.subject) n

  -- A call is a function of the directory: it does not see the order of the entries, nor change what it
  -- knows of it.
  pub visit-directory :
      (x : Visit) (c d : Cache)
      → SameAnswers c d
      → ((visit x c).filled ≡ (visit x d).filled)
        × ((visit x c).warnings ≡ (visit x d).warnings)
        × (directory (visit x c).cache ≡ directory (visit x d).cache)
  visit-directory x c d s =
      let (f, w, l) = visit-Alike x c d (s x.caller.subject) in
      (f, w, Quot.sound (λ j. everywhere j l))
    where
      everywhere :
          (j : Bytes)
          → lookup x.caller.subject (visit x c).cache ≡ lookup x.caller.subject (visit x d).cache
          → lookup j (visit x c).cache ≡ lookup j (visit x d).cache
      everywhere j l = elim (subject_cases j x.caller.subject) [
        | inl e ↦ rw e l
        | inr n ↦ visit-lookup x j c n ∙ s j ∙ sym (visit-lookup x j d n)
      ]

  -- Two calls for callers with two subjects do not disturb one another: in either order both get the
  -- same identity and warnings, and what is known in the end is the same.
  pub visit_comm :
      (x y : Visit) (c : Cache)
      → x.caller.subject ≢ y.caller.subject
      → let x_first = visit x c in
        let y_second = visit y x_first.cache in
        let y_first = visit y c in
        let x_second = visit x y_first.cache in
        (x_second.filled ≡ x_first.filled)
        × (x_second.warnings ≡ x_first.warnings)
        × (y_second.filled ≡ y_first.filled)
        × (y_second.warnings ≡ y_first.warnings)
        × (directory x_second.cache ≡ directory y_second.cache)
  visit_comm x y c n =
      let (f, v, l) = visit-Alike x (visit y c).cache c (visit-lookup y x.caller.subject c n) in
      let (g, w, m) =
        visit-Alike y (visit x c).cache c (visit-lookup x y.caller.subject c (λ e. n (sym e))) in
      (f, v, g, w, Quot.sound (λ j. everywhere j l m))
    where
      everywhere :
          (j : Bytes)
          → lookup x.caller.subject (visit x (visit y c).cache).cache
            ≡ lookup x.caller.subject (visit x c).cache
          → lookup y.caller.subject (visit y (visit x c).cache).cache
            ≡ lookup y.caller.subject (visit y c).cache
          → lookup j (visit x (visit y c).cache).cache ≡ lookup j (visit y (visit x c).cache).cache
      everywhere j l m = elim (subject_cases j x.caller.subject) [
        | inl e ↦ rw e (l ∙ sym (visit-lookup y x.caller.subject (visit x c).cache n))
        | inr o ↦ elim (subject_cases j y.caller.subject) [
          | inl e ↦
              rw e (visit-lookup x y.caller.subject (visit y c).cache (λ q. n (sym q)) ∙ sym m)
          | inr p ↦
              visit-lookup x j (visit y c).cache o
              ∙ visit-lookup y j c p
              ∙ sym (visit-lookup x j c o)
              ∙ sym (visit-lookup y j (visit x c).cache p)
        ]
      ]
