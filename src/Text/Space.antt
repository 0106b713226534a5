-- ===== src/Text/Space.antt =====
-- `strings.TrimSpace`, over the UTF-8 encodings of the code points that `unicode.IsSpace` accepts.
-- No such encoding ends another, so cutting them off the end of the bytes is what Go's decoding of
-- the last rune does; a byte that is part of no such encoding, valid UTF-8 or not, stops the trim.
use gateway_auth.Prelude.{
  ℕ, ◌≡◌, refl, sym, ap, ◌∙◌, Bool, true, false, ◌&&◌, ◌||◌, [], ◌∷◌, ◌++◌, arith, ◌==◌, in_range,
  if◌then◌else◌, reverse, reverse-append, reverse-reverse, reverse-cons, append_assoc, inl, inr,
  ◌≢◌, Bool-cases, ◌<◌, ◌<◌,
}
use gateway_auth.Text.{Bytes}

-- '\t' to '\r' and ' '.
abbrev pub one : ℕ → Bool
one a = in_range 9 13 a || (a == 32)

-- U+0085 and U+00A0.
abbrev pub two : ℕ → ℕ → Bool
two a b = (a == 0xc2) && ((b == 0x85) || (b == 0xa0))

-- U+1680, U+2000 to U+200A, U+2028, U+2029, U+202F, U+205F and U+3000.
abbrev pub three : ℕ → ℕ → ℕ → Bool
three a b c =
    ((a == 0xe1) && (b == 0x9a) && (c == 0x80))
    || ((a == 0xe2)
        && (b == 0x80)
        && (in_range 0x80 0x8a c || (c == 0xa8) || (c == 0xa9) || (c == 0xaf)))
    || ((a == 0xe2) && (b == 0x81) && (c == 0x9f))
    || ((a == 0xe3) && (b == 0x80) && (c == 0x80))

-- Cutting encodings off the front, for the texts read forwards or backwards.
module _ (t1 : ℕ → Bool) (t2 : ℕ → ℕ → Bool) (t3 : ℕ → ℕ → ℕ → Bool) where
  -- The text begins with an encoding.
  unfoldable pub leads : Bytes → Bool
  leads [] = false
  leads (a ∷ []) = t1 a
  leads (a ∷ b ∷ []) = t1 a || t2 a b
  leads (a ∷ b ∷ c ∷ s) = t1 a || t2 a b || t3 a b c

  unfoldable pub strip : Bytes → Bytes
  strip [] = []
  strip (a ∷ []) = if t1 a then [] else a ∷ []
  strip (a ∷ b ∷ []) =
      let after1 = strip (b ∷ []) in if t1 a then after1 else if t2 a b then [] else a ∷ b ∷ []
  strip (a ∷ b ∷ c ∷ s) =
      let after1 = strip (b ∷ c ∷ s) in
      let after2 = strip (c ∷ s) in
      let after3 = strip s in
      if t1 a then after1 else if t2 a b then after2 else if t3 a b c then after3 else a ∷ b ∷ c ∷ s

  -- What is left begins with no encoding.
  leads-strip : (s : Bytes) → leads (strip s) ≡ false
  unfolding leads strip
  leads-strip [] = refl
  leads-strip (a ∷ []) = ground arith
  leads-strip (a ∷ b ∷ []) = ground (arith, leads-strip (b ∷ []))
  leads-strip (a ∷ b ∷ c ∷ s) =
      ground (arith, leads-strip (b ∷ c ∷ s), leads-strip (c ∷ s), leads-strip s)

  strip_of_leads : (s : Bytes) → leads s ≡ false → strip s ≡ s
  unfolding leads strip
  strip_of_leads [] h = refl
  strip_of_leads (a ∷ []) h = ground arith
  strip_of_leads (a ∷ b ∷ []) h = ground arith
  strip_of_leads (a ∷ b ∷ c ∷ s) h = ground arith

  strip-one : (a : ℕ) (p : Bytes) → t1 a ≡ true → strip (a ∷ p) ≡ strip p
  unfolding strip
  strip-one a [] h = ground arith
  strip-one a (b ∷ []) h = ground arith
  strip-one a (b ∷ c ∷ p) h = ground arith

  strip-two : (a b : ℕ) (p : Bytes) → t1 a ≡ false → t2 a b ≡ true → strip (a ∷ b ∷ p) ≡ strip p
  unfolding strip
  strip-two a b [] h k = ground arith
  strip-two a b (c ∷ p) h k = ground arith

  strip-three :
      (a b c : ℕ) (p : Bytes)
      → t1 a ≡ false
      → t2 a b ≡ false
      → t3 a b c ≡ true
      → strip (a ∷ b ∷ c ∷ p) ≡ strip p
  unfolding strip
  strip-three a b c p h k l = ground arith

  -- The text is white space, and what follows it.
  abbrev Splits : Bytes → Bytes → Type 0
  Splits s r = (p : Bytes) × (s ≡ p ++ r) × (strip p ≡ [])

  strip_split : (s : Bytes) → Splits s (strip s)
  unfolding strip
  strip_split [] = ([], refl, refl)
  strip_split (a ∷ []) = elim (Bool-cases (t1 a)) [
    | inl e ↦ rw (strip-one a [] e) (a ∷ [], refl, strip-one a [] e)
    | inr e ↦ rw e ([], refl, refl)
  ]
  strip_split (a ∷ b ∷ []) = elim (Bool-cases (t1 a)) [
    | inl e ↦
        let (p, q, z) = strip_split (b ∷ []) in
        rw (strip-one a (b ∷ []) e) (a ∷ p, ap (◌∷◌ a) q, strip-one a p e ∙ z)
    | inr e ↦ elim (Bool-cases (t2 a b)) [
      | inl f ↦ rw (strip-two a b [] e f) (a ∷ b ∷ [], refl, strip-two a b [] e f)
      | inr f ↦ rw (e, f) ([], refl, refl)
    ]
  ]
  strip_split (a ∷ b ∷ c ∷ s) = elim (Bool-cases (t1 a)) [
    | inl e ↦
        let (p, q, z) = strip_split (b ∷ c ∷ s) in
        rw (strip-one a (b ∷ c ∷ s) e) (a ∷ p, ap (◌∷◌ a) q, strip-one a p e ∙ z)
    | inr e ↦ elim (Bool-cases (t2 a b)) [
      | inl f ↦
          let (p, q, z) = strip_split (c ∷ s) in
          rw (strip-two a b (c ∷ s) e f) (a ∷ b ∷ p, ap (λ r. a ∷ b ∷ r) q, strip-two a b p e f ∙ z)
      | inr f ↦ elim (Bool-cases (t3 a b c)) [
        | inl g ↦
            let (p, q, z) = strip_split s in
            rw (strip-three a b c s e f g)
              (a ∷ b ∷ c ∷ p, ap (λ r. a ∷ b ∷ c ∷ r) q, strip-three a b c p e f g ∙ z)
        | inr g ↦ rw (e, f, g) ([], refl, refl)
      ]
    ]
  ]

  -- A text begins with an encoding if a beginning of it does.
  leads-append : (p q : Bytes) → leads (p ++ q) ≡ false → leads p ≡ false
  unfolding leads
  leads-append [] q h = refl
  leads-append (a ∷ []) [] h = h
  leads-append (a ∷ []) (b ∷ []) h = ground arith
  leads-append (a ∷ []) (b ∷ c ∷ q) h = ground arith
  leads-append (a ∷ b ∷ []) [] h = h
  leads-append (a ∷ b ∷ []) (c ∷ q) h = ground arith
  leads-append (a ∷ b ∷ c ∷ p) q h = h

abbrev pub two_back : ℕ → ℕ → Bool
two_back a b = two b a

abbrev pub three_back : ℕ → ℕ → ℕ → Bool
three_back a b c = three c b a

-- `strings.TrimLeftFunc(s, unicode.IsSpace)`.
unfoldable pub trim_left : Bytes → Bytes
unfolding strip
trim_left = strip one two three

-- `strings.TrimRightFunc(s, unicode.IsSpace)`.
unfoldable pub trim_right : Bytes → Bytes
unfolding strip
trim_right s = reverse (strip one two_back three_back (reverse s))

-- `strings.TrimSpace(s)`.
unfoldable pub trim_space : Bytes → Bytes
unfolding trim_left trim_right
trim_space s = trim_right (trim_left s)

-- The text begins with white space.
unfoldable pub has_space_front : Bytes → Bool
unfolding leads
has_space_front = leads one two three

-- The text ends with white space.
unfoldable pub has_space_back : Bytes → Bool
unfolding leads
has_space_back s = leads one two_back three_back (reverse s)

-- The text has no white space at its beginning, and none at its end.
abbrev pub IsTrimmed : Bytes → Type 0
IsTrimmed s = (has_space_front s ≡ false) × (has_space_back s ≡ false)

-- The trimmed text, and what is cut off its end.
trim_right_split :
    (u : Bytes) → (post : Bytes) × (u ≡ trim_right u ++ post) × (trim_right post ≡ [])
unfolding trim_right
trim_right_split u =
    let (p, q, z) = strip_split one two_back three_back (reverse u) in
    (
      reverse p,
      sym (reverse-reverse u) ∙ ap reverse q ∙ reverse-append p _,
      rw (reverse-reverse p, z) refl,
    )

-- Trimming cuts off white space alone: before the trimmed text, and behind it.
pub trim_space_split :
    (s : Bytes)
    → (pre post : Bytes) × (s ≡ pre ++ (trim_space s ++ post))
      × (trim_left pre ≡ [])
      × (trim_right post ≡ [])
unfolding trim_space trim_left
trim_space_split s =
    let (pre, q, z) = strip_split one two three s in
    let (post, r, y) = trim_right_split (trim_left s) in (pre, post, q ∙ ap (◌++◌ pre) r, z, y)

trim_right-front : (u : Bytes) → has_space_front u ≡ false → has_space_front (trim_right u) ≡ false
unfolding has_space_front
trim_right-front u h =
    let (post, r, _) = trim_right_split u in
    leads-append one two three (trim_right u) post (rw r at h)

-- The trimmed text has no white space at either end.
pub trim_space-IsTrimmed : (s : Bytes) → IsTrimmed (trim_space s)
unfolding trim_space has_space_front has_space_back trim_left
trim_space-IsTrimmed s = (
  trim_right-front (trim_left s) (leads-strip one two three s),
  unfold trim_right in
      rw (reverse-reverse (strip one two_back three_back (reverse (trim_left s))))
        (leads-strip one two_back three_back (reverse (trim_left s))),
)

pub trim_space_of_IsTrimmed : (s : Bytes) → IsTrimmed s → trim_space s ≡ s
unfolding trim_space has_space_front has_space_back trim_left trim_right
trim_space_of_IsTrimmed s (f, b) =
    rw (strip_of_leads one two three s f, strip_of_leads one two_back three_back (reverse s) b)
      (reverse-reverse s)

pub trim_space_idem : (s : Bytes) → trim_space (trim_space s) ≡ trim_space s
trim_space_idem s = trim_space_of_IsTrimmed (trim_space s) (trim_space-IsTrimmed s)

-- White space at the end of a text that is not empty does not reach over an ASCII byte before it.
back-append :
    (r q : Bytes) (b : ℕ)
    → r ≢ []
    → b < 0x80
    → leads one two_back three_back r ≡ false
    → leads one two_back three_back (r ++ b ∷ q) ≡ false
unfolding leads
back-append [] q b h _ _ = absurd (h refl)
back-append (a ∷ []) [] b _ lt h = ground arith
back-append (a ∷ []) (c ∷ q) b _ lt h = ground arith
back-append (a ∷ c ∷ []) q b _ lt h = ground arith
back-append (a ∷ c ∷ d ∷ r) q b _ lt h = h

reverse-ne-nil : (t : Bytes) → t ≢ [] → reverse t ≢ []
reverse-ne-nil t h e = h (sym (reverse-reverse t) ∙ ap reverse e)

pub has_space_back-append :
    (p t : Bytes) (b : ℕ)
    → b < 0x80
    → t ≢ []
    → has_space_back t ≡ false
    → has_space_back (p ++ b ∷ t) ≡ false
unfolding has_space_back
has_space_back-append p t b lt ne h =
    rw (reverse-append p (b ∷ t), reverse-cons b t, append_assoc (reverse t) (b ∷ []) (reverse p))
      (back-append (reverse t) (reverse p) b (reverse-ne-nil t ne) lt h)

-- A text that begins with an ASCII byte begins with white space only if that byte is.
pub has_space_front-cons :
    (a : ℕ) (s : Bytes) → a < 0x80 → one a ≡ false → has_space_front (a ∷ s) ≡ false
unfolding has_space_front
has_space_front-cons a [] lt h = h
has_space_front-cons a (b ∷ []) lt h = ground arith
has_space_front-cons a (b ∷ c ∷ s) lt h = ground arith

-- A space before the text is trimmed off.
pub trim_space-space : (s : Bytes) → IsTrimmed s → trim_space (32 ∷ s) ≡ s
unfolding trim_space trim_left
trim_space-space s h =
    ap trim_right (strip-one one two three 32 s refl) ∙ trim_space_of_IsTrimmed s h
