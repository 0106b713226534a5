-- ===== src/Text/Split.antt =====
-- The other functions of Go's package strings that the library calls: `Split`, `Cut`, `HasPrefix`,
-- `TrimSuffix`, `TrimRight` and `EqualFold`. Every separator, suffix and cutset of the source is one
-- ASCII byte, and the model takes it as that byte.
use gateway_auth.Prelude.{
  ℕ, ◌+◌, ◌≡◌, refl, ap, ◌∙◌, ◌≢◌, Bool, true, false, ◌&&◌, List, [], ◌∷◌, ◌++◌, Option, none, some,
  arith, ◌==◌, in_range, if◌then◌else◌, is_empty, All,
}
use gateway_auth.Text.{Bytes}

-- `append` to the first part.
abbrev pub grow : ℕ → List Bytes → List Bytes
grow c [] = (c ∷ []) ∷ []
grow c (p ∷ ps) = (c ∷ p) ∷ ps

-- `strings.Split(s, sep)`: at least one part.
unfoldable pub split : Bytes → ℕ → List Bytes
split [] sep = [] ∷ []
split (c ∷ s) sep = let rest = split s sep in if c == sep then [] ∷ rest else grow c rest

-- `strings.Cut(s, sep)`: what stands before and behind the first separator; `none` if there is none.
unfoldable pub cut : Bytes → ℕ → Option (Bytes × Bytes)
cut [] sep = none
cut (c ∷ s) sep =
    let rest = cut s sep in
    if c == sep then some ([], s) else elim rest [ none ↦ none | some (k, v) ↦ some (c ∷ k, v) ]

-- `strings.HasPrefix(s, prefix)`.
unfoldable pub has_prefix : Bytes → Bytes → Bool
has_prefix s [] = true
has_prefix [] (b ∷ prefix) = false
has_prefix (a ∷ s) (b ∷ prefix) = (a == b) && has_prefix s prefix

-- `strings.TrimSuffix(s, b)`.
unfoldable pub trim_suffix : Bytes → ℕ → Bytes
trim_suffix [] b = []
trim_suffix (c ∷ []) b = if c == b then [] else c ∷ []
trim_suffix (c ∷ d ∷ s) b = c ∷ trim_suffix (d ∷ s) b

-- `strings.TrimRight(s, b)`: every `b` at the end is cut off.
unfoldable pub trim_right_byte : Bytes → ℕ → Bytes
trim_right_byte [] b = []
trim_right_byte (c ∷ s) b =
    let rest = trim_right_byte s b in if is_empty rest && (c == b) then [] else c ∷ rest

-- The lower case of an ASCII letter; any other byte is left.
abbrev pub lower : ℕ → ℕ
lower c = if in_range b'A' b'Z' c then c + 32 else c

-- `strings.EqualFold(s, t)` for an ASCII `t` as long as `s`: a code point of more than one byte in
-- `s` leaves fewer code points than `t` has, so Unicode's folding of other letters is not reached.
unfoldable pub equal_fold : Bytes → Bytes → Bool
equal_fold [] [] = true
equal_fold (a ∷ s) (b ∷ t) = (lower a == lower b) && equal_fold s t
equal_fold _ _ = false

-- The byte does not occur.
abbrev pub Lacks : ℕ → Bytes → Type 0
Lacks b = All (λ c. c ≢ b)

-- The texts with `sep` between them; of no text, the empty one.
unfoldable pub join : List Bytes → ℕ → Bytes
join [] sep = []
join (p ∷ []) sep = p
join (p ∷ q ∷ ps) sep = p ++ sep ∷ join (q ∷ ps) sep

pub split_of_Lacks : (p : Bytes) (sep : ℕ) → Lacks sep p → split p sep ≡ p ∷ []
unfolding split
split_of_Lacks [] sep _ = refl
split_of_Lacks (c ∷ p) sep (h, hs) = ground (arith, split_of_Lacks p sep hs)

pub split-append :
    (p s : Bytes) (sep : ℕ) → Lacks sep p → split (p ++ sep ∷ s) sep ≡ p ∷ split s sep
unfolding split
split-append [] s sep _ = ground arith
split-append (c ∷ p) s sep (h, hs) = ground (arith, split-append p s sep hs)

pub split-join :
    (ps : List Bytes) (sep : ℕ) → ps ≢ [] → All (Lacks sep) ps → split (join ps sep) sep ≡ ps
unfolding join
split-join [] sep h _ = absurd (h refl)
split-join (p ∷ []) sep _ (hp, _) = split_of_Lacks p sep hp
split-join (p ∷ q ∷ ps) sep _ (hp, hps) =
    split-append p (join (q ∷ ps) sep) sep hp ∙ ap (◌∷◌ p) (split-join (q ∷ ps) sep (λ e. cc) hps)

grow-Lacks :
    (c sep : ℕ) (ps : List Bytes) → c ≢ sep → All (Lacks sep) ps → All (Lacks sep) (grow c ps)
grow-Lacks c sep [] h _ = ((h, tt), tt)
grow-Lacks c sep (p ∷ ps) h (hp, hps) = ((h, hp), hps)

-- No part holds the separator.
pub split-Lacks : (s : Bytes) (sep : ℕ) → All (Lacks sep) (split s sep)
unfolding split
split-Lacks [] sep = (tt, tt)
split-Lacks (c ∷ s) sep = ground (arith, split-Lacks s sep, grow-Lacks c sep (split s sep))

pub cut-append : (k v : Bytes) (sep : ℕ) → Lacks sep k → cut (k ++ sep ∷ v) sep ≡ some (k, v)
unfolding cut
cut-append [] v sep _ = ground arith
cut-append (c ∷ k) v sep (h, hs) = ground (arith, cut-append k v sep hs)

pub has_prefix-append : (p s : Bytes) → has_prefix (p ++ s) p ≡ true
unfolding has_prefix
has_prefix-append [] s = refl
has_prefix-append (c ∷ p) s = ground (arith, has_prefix-append p s)

pub equal_fold_refl : (s : Bytes) → equal_fold s s ≡ true
unfolding equal_fold
equal_fold_refl [] = refl
equal_fold_refl (c ∷ s) = ground (arith, equal_fold_refl s)
