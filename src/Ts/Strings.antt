-- ===== src/Ts/Strings.antt =====
-- JavaScript strings as lists of UTF-16 code units, and the methods that the package calls.
use gateway_auth.Prelude.{
  ℕ, ◌≡◌, refl, Bool, true, ◌&&◌, ◌||◌, List, [], ◌∷◌, Option, none, some, map, reverse,
  if◌then◌else◌, ◌==◌, ltb, in_range, arith,
}
use gateway_auth.Text.Space.{trim_space, one}
use gateway_auth.Text.Split.{lower}
use gateway_auth.Text.Ascii.{IsAscii, skip, skip-IsAscii, reverse-IsAscii, trim_space-skip}

-- The code units. An ASCII string has the units that its bytes are in Go.
abbrev pub Units : Type 0
Units = List ℕ

-- `s ?? ""`.
abbrev pub or_blank : Option Units → Units
or_blank none = []
or_blank (some s) = s

-- ECMAScript's white space and line terminators.
abbrev pub is_white : ℕ → Bool
is_white c =
    in_range 9 13 c
    || (c == 32)
    || (c == 0xa0)
    || (c == 0x1680)
    || in_range 0x2000 0x200a c
    || (c == 0x2028)
    || (c == 0x2029)
    || (c == 0x202f)
    || (c == 0x205f)
    || (c == 0x3000)
    || (c == 0xfeff)

-- `s.trimStart()`.
unfoldable pub trim_start : Units → Units
trim_start [] = []
trim_start (c ∷ s) = let rest = trim_start s in if is_white c then rest else c ∷ s

-- `s.trim()`.
unfoldable pub trim : Units → Units
unfolding trim_start
trim s = reverse (trim_start (reverse (trim_start s)))

abbrev pub all_ascii : Units → Bool
all_ascii [] = true
all_ascii (c ∷ s) = ltb c 128 && all_ascii s

-- `s.toLowerCase()`: by the table of Unicode, `other`, unless all units are ASCII.
unfoldable pub to_lower_case : (Units → Units) → Units → Units
to_lower_case other s = if all_ascii s then map lower s else other s

-- On ASCII strings `trim` is Go's `TrimSpace`.
trim_start-skip : (s : Units) → IsAscii s → trim_start s ≡ skip s
unfolding trim_start skip
trim_start-skip [] h = refl
trim_start-skip (c ∷ s) (a, h) =
    let same_test : is_white c ≡ one c = ground arith in rw (same_test, trim_start-skip s h) refl

pub trim-trim_space : (s : Units) → IsAscii s → trim s ≡ trim_space s
unfolding trim
trim-trim_space s h =
    rw
      (
        trim_start-skip s h,
        trim_start-skip (reverse (skip s)) (reverse-IsAscii (skip s) (skip-IsAscii s h)),
        trim_space-skip s h,
      )
      refl

pub all_ascii-true : (s : Units) → IsAscii s → all_ascii s ≡ true
all_ascii-true [] h = refl
all_ascii-true (c ∷ s) (a, h) = ground (arith, all_ascii-true s h)

pub to_lower_case-map :
    (other : Units → Units) (s : Units) → IsAscii s → to_lower_case other s ≡ map lower s
unfolding to_lower_case
to_lower_case-map other s h = rw (all_ascii-true s h) refl

pub all_small : (s : Units) → all_ascii s ≡ true → IsAscii s
all_small [] h = tt
all_small (c ∷ s) h = (ground arith, all_small s (ground arith))
