-- ===== src/Text/Ascii.antt =====
-- Texts of ASCII bytes: `strings.TrimSpace` cuts off ASCII white space and nothing else.
use gateway_auth.Prelude.{
  ℕ, zero, suc, ◌<◌, ◌≡◌, refl, ap, Bool, false, [], ◌∷◌, reverse, reverse-cons, take, drop, All,
  All-append, Bool-cases, inl, inr, if◌then◌else◌, arith,
}
use gateway_auth.Text.{Bytes}
use gateway_auth.Text.Space.{
  one, two, three, strip, trim_left, trim_right, trim_space, two_back, three_back,
}

abbrev pub IsAscii : Bytes → Type 0
IsAscii = All (λ c. c < 128)

-- The text from its first byte that is no ASCII white space.
unfoldable pub skip : Bytes → Bytes
skip [] = []
skip (c ∷ s) = let rest = skip s in if one c then rest else c ∷ s

pub skip-IsAscii : (s : Bytes) → IsAscii s → IsAscii (skip s)
unfolding skip
skip-IsAscii [] h = tt
skip-IsAscii (c ∷ s) (a, h) = elim (Bool-cases (one c)) [
  | inl e ↦ rw e (skip-IsAscii s h)
  | inr e ↦ rw e (a, h)
]

pub reverse-IsAscii : (s : Bytes) → IsAscii s → IsAscii (reverse s)
reverse-IsAscii [] h = tt
reverse-IsAscii (c ∷ s) (a, h) =
    rw (reverse-cons c s)
      (All-append (λ b. b < 128) (reverse s) (c ∷ []) (reverse-IsAscii s h) (a, tt))

pub take-IsAscii : (n : ℕ) (s : Bytes) → IsAscii s → IsAscii (take n s)
take-IsAscii zero s h = tt
take-IsAscii (suc n) [] h = tt
take-IsAscii (suc n) (c ∷ s) (a, h) = (a, take-IsAscii n s h)

pub drop-IsAscii : (n : ℕ) (s : Bytes) → IsAscii s → IsAscii (drop n s)
drop-IsAscii zero s h = h
drop-IsAscii (suc n) [] h = tt
drop-IsAscii (suc n) (c ∷ s) (a, h) = drop-IsAscii n s h

module _ (t2 : ℕ → ℕ → Bool) (t3 : ℕ → ℕ → ℕ → Bool)
    (no_two : (a b : ℕ) → a < 128 → b < 128 → t2 a b ≡ false)
    (no_three : (a b c : ℕ) → a < 128 → c < 128 → t3 a b c ≡ false) where
  strip-skip : (s : Bytes) → IsAscii s → strip one t2 t3 s ≡ skip s
  unfolding strip skip
  strip-skip [] h = refl
  strip-skip (a ∷ []) h = ground arith
  strip-skip (a ∷ b ∷ []) (x, (y, h)) = ground (arith, no_two a b x y, strip-skip (b ∷ []) (y, h))
  strip-skip (a ∷ b ∷ c ∷ s) (x, (y, (z, h))) =
      ground (arith, no_two a b x y, no_three a b c x z, strip-skip (b ∷ c ∷ s) (y, (z, h)))

pub trim_space-skip : (s : Bytes) → IsAscii s → trim_space s ≡ reverse (skip (reverse (skip s)))
unfolding trim_space trim_left trim_right
trim_space-skip s h =
    let front : strip one two three s ≡ skip s =
      strip-skip two three (λ a b x y. ground arith) (λ a b c x z. ground arith) s h in
    rw front (
      ap reverse (
        strip-skip two_back three_back (λ a b x y. ground arith) (λ a b c x z. ground arith)
          (reverse (skip s)) (reverse-IsAscii (skip s) (skip-IsAscii s h))))

pub trim_space-IsAscii : (s : Bytes) → IsAscii s → IsAscii (trim_space s)
trim_space-IsAscii s h =
    rw (trim_space-skip s h)
      (reverse-IsAscii _ (skip-IsAscii _ (reverse-IsAscii _ (skip-IsAscii s h))))
