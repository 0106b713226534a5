-- ===== src/Text.antt =====
-- Go strings as lists of bytes, and the functions of Go's package strings that the library calls.
pub mod Space
pub mod Split
pub mod Ascii
use Prim.Native.Char.{code}
use Prim.Native.String.{String}
use gateway_auth.Prelude.{
  ℕ, ◌+◌, ◌≡◌, refl, ◌↔◌, Bool, true, false, ◌&&◌, ◌||◌, List, [], ◌∷◌, ◌++◌, Option, none, some,
  arith, ◌==◌, leb, in_range, if◌then◌else◌, is_empty, reverse, map,
}

-- A Go string: its bytes.
abbrev pub Bytes : Type 0
Bytes = List ℕ

-- A literal of the source. The code points of an ASCII text are its bytes.
abbrev pub codes : String → Bytes
codes String.[] = []
codes (String.◌∷◌ c s) = code c ∷ codes s

-- `s == t` on strings.
unfoldable pub same : Bytes → Bytes → Bool
same [] [] = true
same (a ∷ s) (b ∷ t) = (a == b) && same s t
same _ _ = false

pub same_iff : (s t : Bytes) → (same s t ≡ true) ↔ (s ≡ t)
unfolding same
same_iff [] [] = ((λ _. refl), (λ _. refl))
same_iff [] (b ∷ t) = ((λ h. cc), (λ h. cc))
same_iff (a ∷ s) [] = ((λ h. cc), (λ h. cc))
same_iff (a ∷ s) (b ∷ t) = ground (arith, same_iff s t)
